-- ===== src/Tracking/External.antt =====
-- apps/tracking/external_models.py: the custody ledger of documents that leave DocTrack's offices.
--
-- A custodian is an internal office or an entry of the external directory, never both: the table's
-- check constraints make the two nullable columns this choice. Steps are held latest first, so that
-- the step of the highest sequence is the head; the timeline in order of entry.
pub mod Calls
pub mod Moves
pub mod Work
pub mod Correct
pub mod Creation
pub mod Run
pub mod Sample
pub mod Examples
use udm_doctrack.Base.{
  ℕ, Bool, true, false, not, ◌&&◌, ◌||◌, Option, none, some, List, [], ◌∷◌, ◌==◌, if◌then◌else◌,
  is_some, is_none, is_key, exists, first, get_or, Text,
}
use udm_doctrack.Accounts.{User, known_role, is_system_admin, is_office_admin, can_start_work}
use udm_doctrack.Accounts.Capabilities.{
  external_tracking, view_record, receive, Directory, current_actor, capability_allowed,
}
use udm_doctrack.Tracking.{Status, Action, RecordAccessGrant, is_draft, is_completed}

-- A row of the shared directory.
pub record ExternalOffice : Type 0 where
  pub pk : ℕ
  pub managing_office : ℕ
  pub name : Text
  pub is_active : Bool
  pub revision : ℕ

pub data Party : Type 0 where
  internal external : ℕ → Party

pub record ExternalStep : Type 0 where
  pub sequence : ℕ
  pub action : Action
  pub sender : Party
  pub recipient : Party
  pub from_name : Text
  pub to_name : Text
  pub sent_by : Option ℕ
  pub sent_recorded_by : ℕ
  pub sent_at : ℕ
  pub received_by : Option ℕ
  pub receipt_recorded_by : Option ℕ
  pub received_at : Option ℕ
  pub received_recorded_at : Option ℕ
  pub instructions : Text
  pub receipt_note : Text
  pub due_at : Option ℕ

pub data ExternalEvent : Type 0 where
  created sent receipt remark external_work : ExternalEvent
  attachment finished reopened annotation corrected : ExternalEvent

-- A timeline entry; `step` is the sequence of the step that it belongs to.
pub record ExternalActivity : Type 0 where
  pub step : Option ℕ
  pub event : ExternalEvent
  pub actor : ℕ
  pub actor_office : Option ℕ
  pub message : Text
  pub detail : Text
  pub actual_at : Option ℕ
  pub recorded_at : ℕ

-- The ledger of corrections, without the old and new values.
pub record ExternalActionRevision : Type 0 where
  pub step : ℕ
  pub revision : ℕ
  pub reason : Text
  pub actor : ℕ

-- `filed_office` is the office of the repository document that the record was filed as, if it was.
pub record ExternalRecord : Type 0 where
  pub pk : ℕ
  pub managing_office : ℕ
  pub tracking_number : Text
  pub title : Text
  pub status : Status
  pub revision : ℕ
  pub created_by : ℕ
  pub custodian : Party
  pub custodian_name : Text
  pub due_at : Option ℕ
  pub completed_at : Option ℕ
  pub filed_office : Option ℕ
  pub document_type : Option ℕ
  pub document_types : List ℕ
  pub routing_steps : List ExternalStep
  pub activities : List ExternalActivity
  pub revisions : List ExternalActionRevision
  pub grants : List RecordAccessGrant

abbrev pub internal_office : Party → Option ℕ
internal_office (internal o) = some o
internal_office (external e) = none

abbrev pub external_entry : Party → Option ℕ
external_entry (internal o) = none
external_entry (external e) = some e

abbrev pub is_external_party : Party → Bool
is_external_party p = is_some (external_entry p)

abbrev pub same_party : Party → Party → Bool
same_party (internal a) (internal b) = a == b
same_party (internal a) (external b) = false
same_party (external a) (internal b) = false
same_party (external a) (external b) = a == b

abbrev pub arrived : ExternalStep → Bool
arrived s = is_some s.received_at

-- `routing_steps.order_by("-sequence").first()`
abbrev pub latest_step : List ExternalStep → Option ExternalStep
latest_step [] = none
latest_step (s ∷ _) = some s

abbrev pub current_step : ExternalRecord → Option ExternalStep
current_step r = latest_step r.routing_steps

-- The recipient of the latest received step to an internal office.
abbrev pub latest_internal : List ExternalStep → Option ℕ
latest_internal [] = none
latest_internal (s ∷ steps) =
    let rest = latest_internal steps in
    if arrived s && is_some (internal_office s.recipient) then internal_office s.recipient else rest

unfoldable pub responsible_office : ExternalRecord → ℕ
responsible_office r = elim r.filed_office [
  | some filed ↦ filed
  | none ↦ elim r.custodian [
    | internal office ↦ office
    | external entry ↦ get_or (latest_internal r.routing_steps) r.managing_office
  ]
]

-- `visible_to`, for one record.
abbrev pub owns : ExternalRecord → ℕ → Bool
owns r office = (r.managing_office == office) || is_key r.filed_office office

abbrev pub involves : ExternalRecord → ℕ → Bool
involves r office =
    exists
      (λ (s : ExternalStep).
        is_key (internal_office s.sender) office || is_key (internal_office s.recipient) office)
      r.routing_steps

abbrev pub shared_with : ExternalRecord → User → ℕ → Bool
shared_with r u office =
    exists (λ (g : RecordAccessGrant). is_key g.user u.pk || is_key g.office office) r.grants

unfoldable pub visible_for : ExternalRecord → User → Option ℕ → Bool
visible_for r u none = false
visible_for r u (some office) =
    (owns r office
      || ((involves r office || (if is_office_admin u then false else shared_with r u office))
          && not (is_draft r.status)))
    && (is_office_admin u || not (is_draft r.status))

unfoldable pub visible_by : Directory → ExternalRecord → Option User → Bool
visible_by dir r none = false
visible_by dir r (some u) =
    if not (capability_allowed dir none u external_tracking view_record false)
    then false
    else if not u.is_authenticated || (not u.is_active || not (known_role u.role))
    then false
    else if is_system_admin u
    then true
    else visible_for r u u.office_id

unfoldable pub visible_to : Directory → ExternalRecord → User → Bool
visible_to dir r u = visible_by dir r (current_actor dir none u)

-- `user.is_office_admin and (user.is_system_admin or user.office_id == office_id)`
abbrev pub manages : User → ℕ → Bool
manages u office = is_office_admin u && (is_system_admin u || is_key u.office_id office)

unfoldable pub can_actor_manage : Directory → ExternalRecord → Option User → Bool
can_actor_manage dir r none = false
can_actor_manage dir r (some u) =
    if not (capability_allowed dir none u external_tracking view_record false)
    then false
    else u.is_authenticated && (u.is_active && manages u (responsible_office r))

unfoldable pub can_manage : Directory → ExternalRecord → User → Bool
can_manage dir r u = can_actor_manage dir r (current_actor dir none u)

-- Is the latest step still under way?
abbrev pub in_transit : ExternalRecord → Bool
in_transit r = elim r.routing_steps [ [] ↦ false | s ∷ _ ↦ not (arrived s) ]

abbrev pub never_sent : ExternalRecord → Bool
never_sent r = elim r.routing_steps [ [] ↦ true | s ∷ _ ↦ false ]

unfoldable pub can_actor_act : Directory → ExternalRecord → Option User → Bool
can_actor_act dir r none = false
can_actor_act dir r (some u) =
    if not (capability_allowed dir none u external_tracking view_record false)
    then false
    else if not u.is_authenticated || (not u.is_active || not (can_start_work u))
    then false
    else if in_transit r
    then false
    else if is_draft r.status && (never_sent r && can_manage dir r u)
    then true
    else elim r.custodian [
      | external entry ↦ can_manage dir r u
      | internal office ↦ is_key u.office_id office
    ]

unfoldable pub can_act : Directory → ExternalRecord → User → Bool
can_act dir r u = can_actor_act dir r (current_actor dir none u)

-- The latest step waits for the internal office.
abbrev pub awaits_office : Option ExternalStep → Option ℕ → Bool
awaits_office none office = false
awaits_office (some s) none = false
awaits_office (some s) (some office) =
    is_key (internal_office s.recipient) office && not (arrived s)

unfoldable pub can_actor_confirm_receipt : Directory → ExternalRecord → Option User → Bool
can_actor_confirm_receipt dir r none = false
can_actor_confirm_receipt dir r (some u) =
    if not (capability_allowed dir none u external_tracking receive false)
    then false
    else u.is_active && (can_start_work u && awaits_office (current_step r) u.office_id)

unfoldable pub can_confirm_receipt : Directory → ExternalRecord → User → Bool
can_confirm_receipt dir r u = can_actor_confirm_receipt dir r (current_actor dir none u)

pub data Direction : Type 0 where
  incoming outgoing managed : Direction

-- Seen from an internal office.
unfoldable pub direction_for : ExternalRecord → ℕ → Direction
direction_for r office = elim (current_step r) [
  | none ↦ managed
  | some s ↦
      if is_key (internal_office s.recipient) office
      then incoming
      else if is_key (internal_office s.sender) office
      then outgoing
      else managed
]
