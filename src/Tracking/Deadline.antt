-- ===== src/Tracking/Deadline.antt =====
-- Deadlines: apps/tracking/models.py (`overdue_q`, `is_overdue`, `deadline_state`) and
-- apps/tracking/services.py (`on_time_q`).
use udm_doctrack.Base.{
  ℕ, ◌+◌, ◌*◌, ◌≤◌, Bool, true, false, not, ◌&&◌, ◌||◌, Option, none, some, ◌≡◌, ◌↔◌, ltb, leb,
  if◌then◌else◌, is_none, arith,
}
use udm_doctrack.Tracking.{TrackingRecord, is_completed}

-- Microseconds in an hour.
abbrev pub hour : ℕ
hour = 3600000000

-- SQL comparisons with a null deadline are never true.
abbrev pub past : Option ℕ → ℕ → Bool
past none now = false
past (some due) now = ltb due now

abbrev pub ahead : Option ℕ → ℕ → Bool
ahead none now = false
ahead (some due) now = leb now due

unfoldable pub overdue_q : ℕ → TrackingRecord → Bool
overdue_q now r = past r.due_at now && not (is_completed r.status)

unfoldable pub on_time_q : ℕ → TrackingRecord → Bool
on_time_q now r = is_none r.due_at || (ahead r.due_at now || is_completed r.status)

-- The property of one record.
unfoldable pub is_overdue : ℕ → TrackingRecord → Bool
is_overdue now r = past r.due_at now && not (is_completed r.status)

pub data DeadlineState : Type 0 where
  overdue due_soon scheduled no_deadline : DeadlineState

abbrev pub within_window : Option ℕ → ℕ → Bool
within_window none limit = false
within_window (some due) limit = leb due limit

unfoldable pub deadline_state : ℕ → ℕ → TrackingRecord → DeadlineState
unfolding is_overdue
deadline_state warning_hours now r =
    if is_none r.due_at || is_completed r.status
    then no_deadline
    else if is_overdue now r
    then overdue
    else if within_window r.due_at (now + warning_hours * hour)
    then due_soon
    else scheduled

-- The two filters of the page split every set of records: each record is under exactly one.
pub on_time_q-overdue_q : (now : ℕ) (r : TrackingRecord) → on_time_q now r ≡ not (overdue_q now r)
unfolding on_time_q overdue_q
on_time_q-overdue_q now r = by_deadline r.due_at (is_completed r.status)
  where
    by_deadline :
        (due : Option ℕ) (over : Bool)
        → (is_none due || (ahead due now || over)) ≡ not (past due now && not over)
    by_deadline due over = ground arith

-- A row is marked overdue exactly when the overdue filter finds it, and the mark moves only forward
-- as time passes: what is overdue stays so until the record itself changes.
pub deadline_state-overdue :
    (warning_hours now later : ℕ) (r : TrackingRecord)
    → now ≤ later
    → ((deadline_state warning_hours now r ≡ overdue) ↔ (overdue_q now r ≡ true))
      × (deadline_state warning_hours now r ≡ overdue
          → deadline_state warning_hours later r ≡ overdue)
unfolding deadline_state overdue_q
deadline_state-overdue hours now later r passes =
    by_deadline hours now later r.due_at (is_completed r.status) passes
  where
    state : ℕ → ℕ → Option ℕ → Bool → DeadlineState
    state hours now due over =
        if is_none due || over
        then no_deadline
        else if past due now && not over
        then overdue
        else if within_window due (now + hours * hour)
        then due_soon
        else scheduled

    by_deadline :
        (hours now later : ℕ) (due : Option ℕ) (over : Bool)
        → now ≤ later
        → ((state hours now due over ≡ overdue) ↔ ((past due now && not over) ≡ true))
          × (state hours now due over ≡ overdue → state hours later due over ≡ overdue)
    by_deadline hours now later none over passes = ground arith
    by_deadline hours now later (some due) over passes = ground arith
