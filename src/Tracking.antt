-- ===== src/Tracking.antt =====
-- apps/tracking/models.py: the tracking record with its routing steps, timeline and grants.
--
-- A record stands for its database row together with the rows that point to it, each list in the
-- order of its model (`sequence` for steps, time of entry for activities). Times are microseconds.
-- Columns that no rule below reads (subject, priority, classification, the printed action code and
-- the row's own created and updated stamps) are left out.
pub mod Stage
pub mod Access
pub mod Deadline
pub mod Directions
pub mod Sla
pub mod Numbers
pub mod Notices
pub mod Services
pub mod External
pub mod Sample
pub mod Examples
use udm_doctrack.Base.{
  ℕ, Bool, true, false, not, ◌&&◌, ◌||◌, Option, none, some, List, [], ◌∷◌, ◌==◌, leb, ltb,
  if◌then◌else◌, is_some, is_none, is_key, exists, keep, first, map, length, Text, text,
  starts_with,
}

pub data Status : Type 0 where
  draft pending_receipt received in_process completed_pending_upload completed : Status

pub data Action : Type 0 where
  send forward return : Action

pub data Event : Type 0 where
  created sent receipt remark attachment forwarded returned : Event
  finished archived access reopened viewed printed : Event

-- A routing step: one office sends the document to another, which confirms receipt or not yet.
pub record RoutingStep : Type 0 where
  pub sequence : ℕ
  pub batch : ℕ
  pub action : Action
  pub from_office : Option ℕ
  pub to_office : ℕ
  pub sent_by : ℕ
  pub sent_at : ℕ
  pub instructions : Text
  pub due_at : Option ℕ
  pub received_by : Option ℕ
  pub received_at : Option ℕ
  pub receipt_note : Text

-- A timeline entry.
pub record RecordActivity : Type 0 where
  pub event : Event
  pub batch : ℕ
  pub actor : Option ℕ
  pub actor_office : Option ℕ
  pub work_office : Option ℕ
  pub message : Text
  pub detail : Text
  pub created_at : ℕ

pub record RecordAccessGrant : Type 0 where
  pub office : Option ℕ
  pub user : Option ℕ
  pub granted_by : ℕ
  pub reason : Text

pub record TrackingRecord : Type 0 where
  pub pk : ℕ
  pub tracking_number : Text
  pub document_type : Option ℕ
  pub originating_office : ℕ
  pub created_by : ℕ
  pub instructions : Text
  pub status : Status
  pub current_office : Option ℕ
  pub current_holder : Option ℕ
  pub current_batch : ℕ
  pub due_at : Option ℕ
  pub first_received_at : Option ℕ
  pub last_movement_at : ℕ
  pub completed_at : Option ℕ
  pub completed_by : Option ℕ
  pub completion_note : Text
  pub is_archived : Bool
  pub archived_at : Option ℕ
  pub archived_document : Option ℕ
  pub routing_steps : List RoutingStep
  pub activities : List RecordActivity
  pub grants : List RecordAccessGrant

abbrev pub is_draft : Status → Bool
is_draft draft = true
is_draft _ = false

-- `status in COMPLETED_STATUSES`
abbrev pub is_completed : Status → Bool
is_completed completed_pending_upload = true
is_completed completed = true
is_completed _ = false

abbrev pub is_pending_upload : Status → Bool
is_pending_upload completed_pending_upload = true
is_pending_upload _ = false

abbrev pub is_filed : Status → Bool
is_filed completed = true
is_filed _ = false

-- `self.routing_steps.filter(batch=self.current_batch)`
abbrev pub in_batch : ℕ → RoutingStep → Bool
in_batch batch s = s.batch == batch

abbrev pub current_steps : TrackingRecord → List RoutingStep
current_steps r = keep (in_batch r.current_batch) r.routing_steps

abbrev pub is_received : RoutingStep → Bool
is_received s = is_some s.received_at

abbrev pub is_pending : RoutingStep → Bool
is_pending s = is_none s.received_at

abbrev pub addressed_to : ℕ → RoutingStep → Bool
addressed_to office s = s.to_office == office

-- The offices of the current batch, received or not (`receiving_offices`, `current_offices`).
unfoldable pub receiving_offices : TrackingRecord → List ℕ
receiving_offices r = map (λ s. s.to_office) (current_steps r)

unfoldable pub pending_receipt_offices : TrackingRecord → List ℕ
pending_receipt_offices r = map (λ s. s.to_office) (keep is_pending (current_steps r))

unfoldable pub pending_step_for_office : TrackingRecord → Option ℕ → Option RoutingStep
pending_step_for_office r none = none
pending_step_for_office r (some office) =
    first (λ s. addressed_to office s && is_pending s) (current_steps r)

unfoldable pub has_custody : TrackingRecord → Option ℕ → Bool
has_custody r none = false
has_custody r (some office) = exists (λ s. addressed_to office s && is_received s) (current_steps r)

unfoldable pub is_incoming_for : TrackingRecord → Option ℕ → Bool
is_incoming_for r none = false
is_incoming_for r (some office) = exists (addressed_to office) (current_steps r)

unfoldable pub is_outgoing_for : TrackingRecord → Option ℕ → Bool
is_outgoing_for r none = false
is_outgoing_for r (some office) = exists (λ s. is_key s.from_office office) (current_steps r)

-- What the timeline counts as work: a remark or an attachment, unless the message is the one that
-- older versions wrote when a record came back.
abbrev pub is_work_event : Event → Bool
is_work_event remark = true
is_work_event attachment = true
is_work_event _ = false

abbrev pub returned_prefix : Text
returned_prefix = text "Returned to tracking by "

abbrev pub is_work : RecordActivity → Bool
is_work a = is_work_event a.event && not (starts_with returned_prefix a.message)

-- Was the activity the step's recipient's, at or after its receipt?
abbrev pub since : Option ℕ → ℕ → Bool
since none t = false
since (some received_at) t = leb received_at t

abbrev pub by_recipient : RecordActivity → RoutingStep → Bool
by_recipient a s =
    is_key a.work_office s.to_office || (is_none a.work_office && is_key a.actor_office s.to_office)

abbrev pub follows : RecordActivity → RoutingStep → Bool
follows a s = since s.received_at a.created_at && by_recipient a s

-- The steps that `has_activity_after_receipt` looks at.
abbrev pub receipts_of : TrackingRecord → Option ℕ → List RoutingStep
receipts_of r none = keep is_received (current_steps r)
receipts_of r (some office) = keep (addressed_to office) (keep is_received (current_steps r))

unfoldable pub has_activity_after_receipt : TrackingRecord → Option ℕ → Bool
has_activity_after_receipt r office =
    exists
      (λ (a : RecordActivity).
        exists (follows a) (receipts_of r office) && ((a.batch == r.current_batch) && is_work a))
      r.activities

-- `max(received, key=lambda step: step.received_at)`: the first of the latest.
abbrev pub receipt_time : RoutingStep → ℕ
receipt_time s = elim s.received_at [ none ↦ 0 | some t ↦ t ]

unfoldable pub latest : RoutingStep → List RoutingStep → RoutingStep
latest best [] = best
latest best (s ∷ ss) = latest (if ltb (receipt_time best) (receipt_time s) then s else best) ss

-- The state that the received steps of a batch give: `first_step` is the batch's first step.
unfoldable pub settle_received :
    TrackingRecord → List RoutingStep → List RoutingStep → TrackingRecord
settle_received r steps [] = r
settle_received r steps (s ∷ received_steps) =
    let last = latest s received_steps in
    record r {
      status =
          if ltb (length (s ∷ received_steps)) (length steps)
          then pending_receipt
          else if has_activity_after_receipt r none
          then in_process
          else received;
      current_office = some last.to_office;
      current_holder = last.received_by;
    }

unfoldable pub settle : TrackingRecord → List RoutingStep → List RoutingStep → TrackingRecord
settle r [] received_steps = record r { status = draft }
settle r (s ∷ steps) [] = record r {
  status = pending_receipt;
  current_office = s.from_office;
  current_holder = none;
}
settle r (s ∷ steps) (t ∷ received_steps) = settle_received r (s ∷ steps) (t ∷ received_steps)

-- The one place that sets `status`, `current_office` and `current_holder`.
unfoldable pub recalculate_status : TrackingRecord → TrackingRecord
recalculate_status r =
    if is_draft r.status || is_completed r.status
    then r
    else settle r (current_steps r) (keep is_received (current_steps r))

unfoldable pub touch_movement : ℕ → TrackingRecord → TrackingRecord
touch_movement now r = record r { last_movement_at = now }
