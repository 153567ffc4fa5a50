-- ===== src/Tracking/External/Calls.antt =====
-- apps/tracking/external_services.py: what surrounds each change of an external record.
use udm_doctrack.Base.{
  ℕ, suc, max, Bool, true, false, not, ◌&&◌, Option, none, some, List, [], ◌∷◌, ◌++◌, ◌==◌,
  if◌then◌else◌, is_some, first, leb, ltb, Text, strip, text_length, Outcome, success, raised,
  guard, ◌>>=◌, ◌>>◌, permission_denied, validation_error,
}
use udm_doctrack.Accounts.{User}
use udm_doctrack.Accounts.Capabilities.{
  external_tracking, Capability, active_writer, require_capability,
}
use udm_doctrack.Tracking.{is_completed}
use udm_doctrack.Tracking.Numbers.{NumberSequence}
use udm_doctrack.Tracking.Notices.{Notification}
use udm_doctrack.Tracking.Services.{Env, AuditLog, AuditAction}
use udm_doctrack.Tracking.External.{
  ExternalOffice, ExternalStep, ExternalEvent, sent, receipt, ExternalActivity, ExternalRecord,
  current_step, visible_to, manages,
}

-- What a call works on: the locked record and the tables that it writes.
pub record Ledger : Type 0 where
  pub doc : ExternalRecord
  pub sequences : List NumberSequence
  pub notifications : List Notification
  pub audit : List AuditLog

-- `_manager`
abbrev pub require_manager : User → ℕ → Outcome (Unit {0})
require_manager u office = guard (manages u office) permission_denied

-- `_text`: stripped, and refused when it is too long.
unfoldable pub text_within : ℕ → Text → Outcome Text
text_within limit value =
    let s = strip value in if ltb limit (text_length s) then raised validation_error else success s

abbrev pub not_before : Option ℕ → ℕ → Bool
not_before none t = true
not_before (some earliest) t = leb earliest t

-- `value or timezone.now()`
abbrev pub or_now : Option ℕ → ℕ → ℕ
or_now none now = now
or_now (some t) now = t

-- `_actual`: a reported time is neither in the future nor before `earliest`.
unfoldable pub actual : ℕ → Option ℕ → Option ℕ → Outcome ℕ
actual now value earliest = do
  guard (leb (or_now value now) now) validation_error
  guard (not_before earliest (or_now value now)) validation_error
  success (or_now value now)

abbrev pub later_of : Option ℕ → Option ℕ → Option ℕ
later_of none b = b
later_of (some a) none = some a
later_of (some a) (some b) = some (max a b)

-- `Max("sent_at")` and `Max("received_at")` together.
abbrev pub latest_movement : List ExternalStep → Option ℕ
latest_movement [] = none
latest_movement (s ∷ steps) =
    later_of (later_of (some s.sent_at) s.received_at) (latest_movement steps)

abbrev pub is_movement : ExternalEvent → Bool
is_movement sent = true
is_movement receipt = true
is_movement _ = false

-- `Max("actual_at")` of the entries that pass a test.
abbrev pub latest_entry : (ExternalActivity → Bool) → List ExternalActivity → Option ℕ
latest_entry test [] = none
latest_entry test (a ∷ activities) =
    let rest = latest_entry test activities in if test a then later_of a.actual_at rest else rest

unfoldable pub latest_actual : ExternalRecord → Option ℕ
latest_actual r =
    later_of (latest_movement r.routing_steps)
      (latest_entry (λ a. not (is_movement a.event)) r.activities)

abbrev pub sequence_of : Option ExternalStep → Option ℕ
sequence_of none = none
sequence_of (some s) = some s.sequence

-- `_event`: the timeline entry, whose message is checked and which belongs to the given step or else to the current one.
abbrev pub new_activity :
    Env
    → User
    → ExternalEvent
    → Text
    → Text
    → Option ℕ
    → Option ℕ
    → ExternalRecord
    → ExternalActivity
new_activity env u event message detail actual_at step r = record {
  step = if is_some step then step else sequence_of (current_step r);
  event = event;
  actor = u.pk;
  actor_office = u.office_id;
  message = message;
  detail = detail;
  actual_at = actual_at;
  recorded_at = env.now;
}

abbrev pub new_log : User → Text → ExternalRecord → AuditLog
new_log u message r = record {
  action = AuditAction.update_action;
  summary = message;
  actor = u.pk;
  target = r.pk;
}

unfoldable pub enter_event :
    Env → User → ExternalEvent → Text → Text → Text → Option ℕ → Option ℕ → Ledger → Ledger
enter_event env u event short message detail actual_at step d = record d {
  doc = record d.doc {
    activities =
        d.doc.activities ++ new_activity env u event short detail actual_at step d.doc ∷ [];
  };
  audit = d.audit ++ new_log u message d.doc ∷ [];
}

unfoldable pub add_event :
    Env → User → ExternalEvent → Text → Text → Option ℕ → Option ℕ → Ledger → Outcome Ledger
add_event env u event message detail actual_at step d = do
  short ← text_within 255 message
  success (enter_event env u event short message detail actual_at step d)

-- `_open`
abbrev pub require_unfrozen : ExternalRecord → Outcome (Unit {0})
require_unfrozen r = guard (not (is_completed r.status)) validation_error

-- `lock_external_offices` of one entry.
unfoldable pub active_entry : List ExternalOffice → ℕ → Outcome ExternalOffice
active_entry entries pk = elim (first (λ e. (e.pk == pk) && e.is_active) entries) [
  | none ↦ raised validation_error
  | some e ↦ success e
]

-- `requires_capability`
unfoldable pub with_capability :
    Env → Capability → (User → Ledger → Outcome Ledger) → User → Ledger → Outcome Ledger
with_capability env action body u d = do
  actor ← active_writer env.dir u
  require_capability env.dir none actor external_tracking action
  body actor d

-- The next revision of what the call left.
abbrev pub next_revision : Ledger → Ledger
next_revision d = record d { doc = record d.doc { revision = suc d.doc.revision } }

abbrev pub is_revision : Option ℕ → ℕ → Bool
is_revision none revision = false
is_revision (some expected) revision = expected == revision

-- `_mutation`: the account's row, the scope, the expected revision, the change, the next revision.
unfoldable pub mutation :
    Env → Option ℕ → (User → Ledger → Outcome Ledger) → User → Ledger → Outcome Ledger
mutation env expected body u d = do
  actor ← active_writer env.dir u
  guard (visible_to env.dir d.doc actor) permission_denied
  guard (is_revision expected d.doc.revision) validation_error
  d' ← body actor d
  success (next_revision d')

unfoldable pub guarded_mutation :
    Env → Capability → Option ℕ → (User → Ledger → Outcome Ledger) → User → Ledger → Outcome Ledger
unfolding mutation with_capability
guarded_mutation env action expected body u d =
    mutation env expected (with_capability env action body) u d
