-- ===== src/Tracking/Services.antt =====
-- apps/tracking/services.py: the state that the services work on, and what surrounds each of them.
--
-- A service runs in one transaction on the row it has locked: it takes the desk (the record with
-- the tables that it writes) and returns the new desk or raises, which leaves the old one. One
-- reading of the clock stands for all that a call makes.
pub mod Route
pub mod Receive
pub mod Work
pub mod Share
pub mod Reading
pub mod Authority
pub mod History
pub mod Summary
pub mod Batches
pub mod Undo
pub mod Button
pub mod Run
pub mod Examples
use udm_doctrack.Base.{
  ℕ, ◌+◌, Bool, true, false, not, ◌&&◌, ◌||◌, Option, none, some, List, [], ◌∷◌, ◌++◌, ◌==◌,
  if◌then◌else◌, is_some, is_key, first, get_or, Text, take, text, Outcome, success, raised, guard,
  ◌>>=◌, ◌>>◌, permission_denied, text_length, ltb,
}
use udm_doctrack.Accounts.{User, Office, is_system_admin, can_start_work}
use udm_doctrack.Accounts.Capabilities.{
  Area, tracking, Capability, Directory, active_writer, require_capability,
}
use udm_doctrack.Tracking.{TrackingRecord, RecordActivity, Event, is_work_event, has_custody}
use udm_doctrack.Tracking.Sla.{RoutingSla}
use udm_doctrack.Tracking.Numbers.{NumberSequence}
use udm_doctrack.Tracking.Notices.{Notification}

pub data AuditAction : Type 0 where
  route_action receive_action update_action complete_action permission_action : AuditAction

-- An audit entry, without the extra data beside its summary.
pub record AuditLog : Type 0 where
  pub action : AuditAction
  pub summary : Text
  pub actor : ℕ
  pub target : ℕ

-- What a service reads: the clock, the account and office tables, the rules and the settings.
-- `date_text` prints a date as `strftime` does for `%d %b %Y`.
pub record Env : Type 0 where
  pub now : ℕ
  pub year : ℕ
  pub month : ℕ
  pub dir : Directory
  pub offices : List Office
  pub slas : List RoutingSla
  pub default_due_days : ℕ
  pub number_prefix : Text
  pub number_width : ℕ
  pub date_text : ℕ → Text

-- What a service writes.
pub record Desk : Type 0 where
  pub doc : TrackingRecord
  pub sequences : List NumberSequence
  pub notifications : List Notification
  pub audit : List AuditLog

-- `Office.objects.filter(pk=pk).first()` and its active rows.
unfoldable pub office_row : List Office → ℕ → Option Office
office_row rows pk = first (λ o. o.pk == pk) rows

unfoldable pub active_office : List Office → ℕ → Option Office
active_office rows pk = first (λ o. (o.pk == pk) && o.is_active) rows

abbrev pub code_of : Option Office → Text
code_of none = []
code_of (some o) = o.code

abbrev pub name_of : Option Office → Text
name_of none = []
name_of (some o) = o.name

-- `a or b` for texts
abbrev pub text_or : Text → Text → Text
text_or [] b = b
text_or (c ∷ s) b = c ∷ s

unfoldable pub refuse_viewers : User → Outcome (Unit {0})
refuse_viewers u = guard (u.is_authenticated && can_start_work u) permission_denied

-- The two decorators. `locked_mutation` reloads the account and hands its row on; so does
-- `requires_capability`, which then checks the capability against the table.
unfoldable pub locked_mutation : Directory → (User → Outcome Desk) → User → Outcome Desk
locked_mutation dir body u = do actor ← active_writer dir u; body actor

unfoldable pub requires_capability :
    Directory → Capability → (User → Outcome Desk) → User → Outcome Desk
requires_capability dir action body u = do
  actor ← active_writer dir u
  require_capability dir none actor tracking action
  body actor

unfoldable pub guarded : Env → Capability → (User → Outcome Desk) → User → Outcome Desk
unfolding locked_mutation requires_capability
guarded env action body u = locked_mutation env.dir (requires_capability env.dir action body) u

-- `add_activity`: the office whose custody the work advances, and the new entry.
unfoldable pub work_office_of : TrackingRecord → Event → User → Option ℕ
work_office_of r event actor =
    if not (is_work_event event)
    then none
    else if is_some actor.office_id && has_custody r actor.office_id
    then actor.office_id
    else if is_system_admin actor && has_custody r r.current_office
    then r.current_office
    else none

unfoldable pub add_activity :
    ℕ → Event → Text → User → Text → Option ℕ → TrackingRecord → TrackingRecord
unfolding work_office_of
add_activity now event message actor detail batch r = record r {
  activities =
      r.activities
      ++ record {
        event = event;
        batch = get_or batch r.current_batch;
        actor = some actor.pk;
        actor_office = actor.office_id;
        work_office = work_office_of r event actor;
        message = take 255 message;
        detail = detail;
        created_at = now;
      }
        ∷ [];
}

abbrev pub log_action : AuditAction → Text → User → Desk → Desk
log_action action summary actor d = record d {
  audit =
      d.audit
      ++ record { action = action; summary = summary; actor = actor.pk; target = d.doc.pk } ∷ [];
}

abbrev pub with_doc : Desk → TrackingRecord → Desk
with_doc d r = record d { doc = r }
