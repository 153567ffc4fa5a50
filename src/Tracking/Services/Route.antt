-- ===== src/Tracking/Services/Route.antt =====
-- `route_record`: send the record to one or more offices, in a new batch of steps.
use udm_doctrack.Base.{
  ℕ, suc, ◌+◌, ◌*◌, max, Bool, true, false, not, ◌&&◌, ◌||◌, Option, none, some, List, [], ◌∷◌,
  ◌++◌, map, ◌==◌, if◌then◌else◌, is_some, elem, get_or, Text, take, text, Outcome, success, raised,
  guard, ◌>>=◌, ◌>>◌, permission_denied, validation_error,
}
use udm_doctrack.Accounts.{User, Office}
use udm_doctrack.Accounts.Capabilities.{endorse}
use udm_doctrack.Tracking.{
  pending_receipt, Action, send, forward, return, Event, RoutingStep, TrackingRecord, is_draft,
  is_completed, has_custody, recalculate_status,
}
use udm_doctrack.Tracking.Access.{can_user_act, can_user_view}
use udm_doctrack.Tracking.Sla.{sla_due_days_for}
use udm_doctrack.Tracking.Numbers.{generate_tracking_number}
use udm_doctrack.Tracking.Notices.{Kind, resolve_for_record, notify_offices}
use udm_doctrack.Tracking.Services.{
  Env, Desk, active_office, office_row, code_of, text_or, refuse_viewers, guarded, add_activity,
  log_action, with_doc, AuditAction,
}

-- Microseconds in a day.
abbrev pub day : ℕ
day = 86400000000

-- The deadline argument: nothing said, or a value that may be "no deadline".
pub data DueAt : Type 0 where
  unset : DueAt
  at : Option ℕ → DueAt

pub record RouteRequest : Type 0 where
  pub offices : List (Option ℕ)
  pub instructions : Text
  pub action : Option Action
  pub due_days : Option ℕ
  pub due_at : DueAt
  pub remark : Text

-- `{office.pk: office for office in offices if office is not None}`: each key once, in order.
unfoldable pub distinct_offices : List ℕ → List (Option ℕ) → List ℕ
distinct_offices seen [] = []
distinct_offices seen (none ∷ offices) = distinct_offices seen offices
distinct_offices seen (some pk ∷ offices) =
    let later = distinct_offices (pk ∷ seen) offices in
    let known = distinct_offices seen offices in if elem pk seen then known else pk ∷ later

-- The reloaded active rows, in the caller's order; one that is missing stops the call.
unfoldable pub active_offices : List Office → List ℕ → Option (List Office)
active_offices rows [] = some []
active_offices rows (pk ∷ pks) = elim (active_office rows pk) [
  | none ↦ none
  | some office ↦ elim (active_offices rows pks) [ none ↦ none | some rest ↦ some (office ∷ rest) ]
]

-- `sending_office(record, user)`
unfoldable pub sending_office : TrackingRecord → User → Option ℕ
sending_office r u =
    if is_some u.office_id && has_custody r u.office_id
    then u.office_id
    else if is_some r.current_office
    then r.current_office
    else u.office_id

abbrev pub is_send : Action → Bool
is_send send = true
is_send _ = false

abbrev pub of_action : Option Action → Outcome Action
of_action none = raised validation_error
of_action (some action) = success action

abbrev pub or_invalid {ℓ} : {A : Type ℓ} → Option A → Outcome A
or_invalid none = raised validation_error
or_invalid (some a) = success a

abbrev pub not_nil : List ℕ → Bool
not_nil [] = false
not_nil (_ ∷ _) = true

-- `aggregate(Max(…)) or 0`
abbrev pub max_batch : List RoutingStep → ℕ
max_batch [] = 0
max_batch (s ∷ steps) = max s.batch (max_batch steps)

abbrev pub max_sequence : List RoutingStep → ℕ
max_sequence [] = 0
max_sequence (s ∷ steps) = max s.sequence (max_sequence steps)

-- `timezone.now() + timedelta(days=int(due_days)) if due_days else None`
abbrev pub after_days : ℕ → ℕ → Option ℕ
after_days now days = if days == 0 then none else some (now + days * day)

unfoldable pub deadline_for : Env → TrackingRecord → List ℕ → RouteRequest → Option ℕ
deadline_for env r offices q = elim q.due_at [
  | at due ↦ due
  | unset ↦
      after_days env.now
        (get_or q.due_days (sla_due_days_for env.slas env.default_due_days offices r.document_type))
]

-- One step for each office, numbered on from `sequence`.
unfoldable pub new_steps :
    Env → TrackingRecord → User → Action → ℕ → ℕ → Text → Option ℕ → ℕ → List ℕ → List RoutingStep
new_steps env r u action from_office batch instructions due sequence [] = []
new_steps env r u action from_office batch instructions due sequence (office ∷ offices) =
    record {
      sequence = suc sequence;
      batch = batch;
      action = action;
      from_office = some from_office;
      to_office = office;
      sent_by = u.pk;
      sent_at = env.now;
      instructions = take 5000 (text_or instructions r.instructions);
      due_at = due;
      received_by = none;
      received_at = none;
      receipt_note = [];
    }
    ∷ new_steps env r u action from_office batch instructions due (suc sequence) offices

abbrev pub join_codes : List Office → Text
join_codes [] = []
join_codes (o ∷ []) = o.code
join_codes (o ∷ p ∷ offices) = o.code ++ (text ", " ++ join_codes (p ∷ offices))

abbrev pub verb : Action → Text
verb send = text "Routed"
verb forward = text "Forwarded"
verb return = text "Returned"

abbrev pub event_of : Action → Event
event_of send = Event.sent
event_of forward = Event.forwarded
event_of return = Event.returned

-- What the checks of `route_record` have settled.
pub record Route : Type 0 where
  pub action : Action
  pub destinations : List Office
  pub from_office : ℕ

abbrev pub pks : List Office → List ℕ
pks offices = map (λ o. o.pk) offices

-- The checks, in the order of the code.
unfoldable pub check_route : Env → TrackingRecord → User → RouteRequest → Outcome Route
check_route env r u q = do
  refuse_viewers u
  guard (not (is_completed r.status && can_user_view env.dir none r u)) validation_error
  guard (can_user_act env.dir none r u) permission_denied
  action ← of_action q.action
  guard (not_nil (distinct_offices [] q.offices)) validation_error
  destinations ← or_invalid (active_offices env.offices (distinct_offices [] q.offices))
  guard (not (is_send action) || is_draft r.status) validation_error
  from_office ←
      or_invalid (if is_send action then some r.originating_office else sending_office r u)
  guard (not (elem from_office (pks destinations))) validation_error
  success (record { action = action; destinations = destinations; from_office = from_office })

-- The steps are created and the record takes the new batch; a draft gets its number here.
unfoldable pub enter_batch : Env → User → RouteRequest → Route → Desk → Desk
enter_batch env u q p d =
    let r = d.doc in
    let batch = suc (max_batch r.routing_steps) in
    let due = deadline_for env r (pks p.destinations) q in
    let routed = record r {
      routing_steps =
          r.routing_steps
          ++ new_steps env r u p.action p.from_office batch q.instructions due
              (max_sequence r.routing_steps) (pks p.destinations);
      current_batch = batch;
      due_at = due;
      last_movement_at = env.now;
    } in
    let (number, sequences) =
      generate_tracking_number env.number_prefix env.number_width r.originating_office
        (code_of (office_row env.offices r.originating_office)) env.year env.month d.sequences in
    if is_draft r.status
    then record d {
      doc = record routed { tracking_number = number; status = pending_receipt };
      sequences = sequences;
    }
    else record d { doc = routed }

-- The timeline, the audit log and the notices.
unfoldable pub announce : Env → User → RouteRequest → Route → Desk → Desk
announce env u q p d =
    let r = d.doc in
    let labels = join_codes p.destinations in
    let entered = with_doc d (
      add_activity env.now (event_of p.action)
        (verb p.action ++ (text " to " ++ (labels ++ (text " by " ++ u.display_name)))) u
        (text_or q.remark q.instructions) (some r.current_batch) r) in
    let logged =
      log_action AuditAction.route_action
        (verb p.action ++ (text " " ++ (r.tracking_number ++ (text " to " ++ labels)))) u entered in
    record logged {
      notifications =
          notify_offices (pks p.destinations) Kind.routed
            (text "A document is waiting for your office")
            (r.tracking_number ++ text " was routed to the selected office.") r.pk
            (resolve_for_record r.pk (Kind.routed ∷ Kind.unreceived ∷ Kind.overdue ∷ []) env.now
              d.notifications);
    }

unfoldable pub route_with : Env → User → RouteRequest → Route → Desk → Desk
route_with env u q p d =
    let entered = enter_batch env u q p d in
    announce env u q p (with_doc entered (recalculate_status entered.doc))

unfoldable pub route_body : Env → Desk → RouteRequest → User → Outcome Desk
route_body env d q u = do p ← check_route env d.doc u q; success (route_with env u q p d)

unfoldable pub route_record : Env → Desk → User → RouteRequest → Outcome Desk
unfolding guarded
route_record env d u q = guarded env endorse (route_body env d q) u
