-- ===== src/Tracking/External/Moves.antt =====
-- apps/tracking/external_services.py: `route_record`, `confirm_receipt` and
-- `record_external_receipt`.
use udm_doctrack.Base.{
  ℕ, suc, Bool, true, false, not, ◌&&◌, Option, none, some, List, [], ◌∷◌, ◌++◌, if◌then◌else◌,
  is_some, is_none, Text, text, Outcome, success, raised, guard, ◌>>=◌, ◌>>◌, permission_denied,
  validation_error,
}
use udm_doctrack.Accounts.{User, Office}
use udm_doctrack.Accounts.Capabilities.{endorse, receive}
use udm_doctrack.Tracking.{Status, pending_receipt, Action, send, is_draft}
use udm_doctrack.Tracking.Numbers.{generate_tracking_number}
use udm_doctrack.Tracking.Notices.{Kind, Notification, resolve_for_external_record, notify_external}
use udm_doctrack.Tracking.Services.{Env, active_office, office_row, code_of}
use udm_doctrack.Tracking.Services.Route.{of_action}
use udm_doctrack.Tracking.External.{
  ExternalOffice, Party, internal, external, is_external_party, same_party, ExternalStep, sent,
  receipt, ExternalRecord, arrived, current_step, responsible_office, can_act, can_confirm_receipt,
}
use udm_doctrack.Tracking.External.Calls.{
  Ledger, require_manager, text_within, not_before, actual, latest_actual, add_event,
  require_unfrozen, active_entry, guarded_mutation,
}

pub record ExternalRoute : Type 0 where
  pub to_office : Option ℕ
  pub to_external_office : Option ℕ
  pub action : Option Action
  pub instructions : Text
  pub sent_at : Option ℕ
  pub due_at : Option ℕ

-- The reloaded recipient, with the name that the step keeps.
abbrev pub as_internal : Option Office → Outcome (Party × Text)
as_internal none = raised validation_error
as_internal (some o) = success (internal o.pk, o.name)

abbrev pub as_external : Outcome ExternalOffice → Outcome (Party × Text)
as_external found = found >>= λ e. success (external e.pk, e.name)

-- Exactly one recipient, which is active.
unfoldable pub recipient_of :
    Env → List ExternalOffice → Option ℕ → Option ℕ → Outcome (Party × Text)
recipient_of env entries none none = raised validation_error
recipient_of env entries (some office) none = as_internal (active_office env.offices office)
recipient_of env entries none (some entry) = as_external (active_entry entries entry)
recipient_of env entries (some office) (some entry) = raised validation_error

-- Internal sending is timed by the server; an external one is reported, not before what is known.
unfoldable pub sending_time : ℕ → ExternalRecord → Option ℕ → Outcome ℕ
sending_time now r reported =
    if is_external_party r.custodian
    then actual now reported (latest_actual r)
    else guard (is_none reported) validation_error >> success now

abbrev pub deadline_fits : Option ℕ → ℕ → Bool
deadline_fits none sent_at = true
deadline_fits (some due) sent_at = not_before (some sent_at) due

-- What the checks have settled.
pub record Dispatch : Type 0 where
  pub action : Action
  pub recipient : Party
  pub to_name : Text
  pub sent_at : ℕ
  pub instructions : Text

unfoldable pub check_dispatch :
    Env → List ExternalOffice → ExternalRecord → User → ExternalRoute → Outcome Dispatch
check_dispatch env entries r u q = do
  require_unfrozen r
  guard (can_act env.dir r u) permission_denied
  guard (not (is_some q.to_office && is_some q.to_external_office)) validation_error
  action ← of_action q.action
  (recipient, name) ← recipient_of env entries q.to_office q.to_external_office
  guard (not (same_party r.custodian recipient)) validation_error
  sent_at ← sending_time env.now r q.sent_at
  guard (deadline_fits q.due_at sent_at) validation_error
  instructions ← text_within 5000 q.instructions
  success (record {
    action = action;
    recipient = recipient;
    to_name = name;
    sent_at = sent_at;
    instructions = instructions;
  })

-- The step that a dispatch adds on top of the earlier ones.
unfoldable pub new_step : User → Dispatch → Option ℕ → ExternalRecord → ExternalStep
new_step u p due r = record {
  sequence = elim (current_step r) [ none ↦ 1 | some s ↦ suc s.sequence ];
  action = elim (current_step r) [ none ↦ send | some s ↦ p.action ];
  sender = r.custodian;
  recipient = p.recipient;
  from_name = r.custodian_name;
  to_name = p.to_name;
  sent_by = if is_external_party r.custodian then none else some u.pk;
  sent_recorded_by = u.pk;
  sent_at = p.sent_at;
  received_by = none;
  receipt_recorded_by = none;
  received_at = none;
  received_recorded_at = none;
  instructions = p.instructions;
  receipt_note = [];
  due_at = due;
}

unfoldable pub dispatch_doc : User → Dispatch → Option ℕ → ExternalRecord → ExternalRecord
dispatch_doc u p due r = record r {
  routing_steps = new_step u p due r ∷ r.routing_steps;
  status = pending_receipt;
  due_at = due;
}

-- A draft gets its number.
unfoldable pub dispatch : Env → User → Dispatch → Option ℕ → Ledger → Ledger
dispatch env u p due d =
    let r = d.doc in
    let (number, sequences) =
      generate_tracking_number (text "UDM-EXT") env.number_width r.managing_office
        (code_of (office_row env.offices r.managing_office)) env.year env.month d.sequences in
    if is_draft r.status
    then record d {
      doc = record (dispatch_doc u p due r) { tracking_number = number };
      sequences = sequences;
    }
    else record d { doc = dispatch_doc u p due r }

abbrev pub tell_recipient : Party → ExternalRecord → List Notification → List Notification
tell_recipient (external entry) r rows = rows
tell_recipient (internal office) r rows =
    notify_external office Kind.routed (text "External document awaiting receipt") r.title r.pk rows

abbrev pub resolved : Env → Ledger → Ledger
resolved env d = record d {
  notifications = resolve_for_external_record d.doc.pk env.now d.notifications;
}

unfoldable pub route_body :
    Env → List ExternalOffice → ExternalRoute → User → Ledger → Outcome Ledger
route_body env entries q u d = do
  p ← check_dispatch env entries d.doc u q
  d' ←
      add_event env u sent (text "Routed to " ++ p.to_name) [] (some p.sent_at) none
        (dispatch env u p q.due_at d)
  success (record (resolved env d') {
    notifications = tell_recipient p.recipient d'.doc (resolved env d').notifications;
  })

unfoldable pub route_record :
    Env → List ExternalOffice → Option ℕ → User → ExternalRoute → Ledger → Outcome Ledger
unfolding guarded_mutation
route_record env entries expected u q d =
    guarded_mutation env endorse expected (route_body env entries q) u d

-- The pending step, or the call stops.
abbrev pub pending_step : Option ExternalStep → Outcome ExternalStep
pending_step none = raised validation_error
pending_step (some s) = if arrived s then raised validation_error else success s

-- When the receipt took place: reported by the responsible administrator, or now.
unfoldable pub receipt_time :
    Env → ExternalRecord → User → ExternalStep → Bool → Option ℕ → Outcome ℕ
receipt_time env r u s reported received_at =
    if reported
    then (do
      require_manager u (responsible_office r)
      guard (is_external_party s.recipient) validation_error
      actual env.now received_at (some s.sent_at))
    else (do guard (can_confirm_receipt env.dir r u) permission_denied; success env.now)

abbrev pub receive_step : ℕ → User → Bool → ℕ → Text → ExternalStep → ExternalStep
receive_step now u reported time note s = record s {
  received_at = some time;
  received_recorded_at = some now;
  received_by = if reported then none else some u.pk;
  receipt_recorded_by = some u.pk;
  receipt_note = note;
}

-- The latest step is stamped and its recipient becomes the custodian.
unfoldable pub receive_doc :
    ℕ → User → Bool → ℕ → Text → ExternalStep → ExternalRecord → ExternalRecord
receive_doc now u reported time note s r = record r {
  routing_steps = elim r.routing_steps [
    | [] ↦ []
    | _ ∷ steps ↦ receive_step now u reported time note s ∷ steps
  ];
  custodian = s.recipient;
  custodian_name = s.to_name;
  status = Status.received;
}

unfoldable pub receive_body : Env → Bool → Option ℕ → Text → User → Ledger → Outcome Ledger
receive_body env reported received_at note u d = do
  require_unfrozen d.doc
  s ← pending_step (current_step d.doc)
  time ← receipt_time env d.doc u s reported received_at
  written ← text_within 2000 note
  d' ←
      add_event env u receipt (text "Receipt confirmed at " ++ s.to_name) [] (some time) none
        (record d { doc = receive_doc env.now u reported time written s d.doc })
  success (resolved env d')

unfoldable pub confirm_receipt : Env → Option ℕ → User → Text → Ledger → Outcome Ledger
unfolding guarded_mutation
confirm_receipt env expected u note d =
    guarded_mutation env receive expected (receive_body env false none note) u d

unfoldable pub record_external_receipt :
    Env → Option ℕ → User → Option ℕ → Text → Ledger → Outcome Ledger
unfolding guarded_mutation
record_external_receipt env expected u received_at note d =
    guarded_mutation env receive expected (receive_body env true received_at note) u d
