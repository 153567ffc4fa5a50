-- ===== src/OfficeHours/Loop.antt =====
-- apps/core/business_time.py: the loop of `business_seconds_between`, without a bound on its turns.
use udm_doctrack.Base.{
  ℕ, zero, suc, ◌+◌, ◌-◌, ◌/◌, ◌≤◌, ◌<◌, true, false, ◌≡◌, leb, arith, Bool-cases, inl, inr,
}
use udm_doctrack.OfficeHours.{
  Schedule, Holidays, day_usec, schedule_of, is_working_day, day_seconds, walk, business_seconds,
}

-- The `while` statement run from a day and a total to its end: the condition fails, or the body is
-- run, by its `continue` or in full, and then the statement again.
pub data Loops (current : Schedule) (h : Holidays) (start end : ℕ) : ℕ → ℕ → ℕ → Type 0 where
  stops : (day total : ℕ) → end / day_usec < day → Loops current h start end day total total
  skips :
      (day total result : ℕ)
      → day ≤ end / day_usec
      → is_working_day current day h ≡ false
      → Loops current h start end (suc day) total result
      → Loops current h start end day total result
  counts :
      (day total result : ℕ)
      → day ≤ end / day_usec
      → is_working_day current day h ≡ true
      → Loops current h start end
          (suc day)
          (total + day_seconds (schedule_of current h) start end day)
          result
      → Loops current h start end day total result

walk-Loops :
    (current : Schedule) (h : Holidays) (start end fuel day total : ℕ)
    → end / day_usec < day + fuel
    → Loops current h start end day total (walk current h start end fuel day total)
unfolding walk
walk-Loops current h start end zero day total enough = stops day total (omega arith)
walk-Loops current h start end (suc fuel) day total enough =
    elim (Bool-cases (leb day (end / day_usec))) [
      | inr over ↦ rw over (stops day total (past over))
      | inl within ↦ elim (Bool-cases (is_working_day current day h)) [
        | inr shut ↦
            rw (within, shut)
              (skips day total _ (reached within) shut
                (walk-Loops current h start end fuel (suc day) total (omega arith)))
        | inl open_ ↦
            rw (within, open_)
              (counts day total _ (reached within) open_ (
                walk-Loops current h start end fuel (suc day)
                  (total + day_seconds (schedule_of current h) start end day) (omega arith)))
      ]
    ]
  where
    past : {m n : ℕ} → leb m n ≡ false → n < m
    past e = ground arith

    reached : {m n : ℕ} → leb m n ≡ true → m ≤ n
    reached e = ground arith

-- The loop over the days ends, whatever the schedule and the holidays are: for an interval that ends
-- after it starts, the `while` statement, run from the first day and the total 0, stops after
-- finitely many turns, with the total that `business_seconds` gives.
pub business_seconds-Loops :
    (current : Schedule) (h : Holidays) (start end : ℕ)
    → start < end
    → Loops current h start end (start / day_usec) 0 (business_seconds current h start end)
unfolding business_seconds
business_seconds-Loops current h start end forward = rw (later forward) (
    walk-Loops current h start end (suc (suc (end / day_usec) - start / day_usec))
      (start / day_usec) 0 (omega arith))
  where
    later : {m n : ℕ} → m < n → leb n m ≡ false
    later e = ground arith
