-- ===== src/Tracking/Directions.antt =====
-- apps/tracking/services.py: `direction_annotation`, `direction_totals` and `by_status_direction`,
-- on a query's records as a list without repetitions.
pub mod Sums
use udm_doctrack.Base.{
  ℕ, suc, ◌+◌, Bool, true, false, not, ◌&&◌, ◌||◌, Option, none, some, List, [], ◌∷◌, ◌==◌,
  if◌then◌else◌, is_some, is_key, exists, keep, length, ltb,
}
use udm_doctrack.Tracking.{
  Status, draft, pending_receipt, received, in_process, completed_pending_upload, completed,
  TrackingRecord, RoutingStep, is_draft,
}
use udm_doctrack.Tracking.Stage.{stage_for}

-- `_direction`
pub data Direction : Type 0 where
  incoming outgoing unset : Direction

-- `Exists(_current_batch_steps(…))`
abbrev pub current_batch_step : (RoutingStep → Bool) → TrackingRecord → Bool
current_batch_step test r =
    exists (λ (s : RoutingStep). (s.batch == r.current_batch) && test s) r.routing_steps

unfoldable pub direction_annotation : ℕ → TrackingRecord → Direction
direction_annotation office r =
    if current_batch_step (λ (s : RoutingStep). s.to_office == office) r
    then incoming
    else if current_batch_step (λ (s : RoutingStep). is_key s.from_office office) r
    then outgoing
    else unset

abbrev pub is_incoming : Direction → Bool
is_incoming incoming = true
is_incoming _ = false

abbrev pub is_outgoing : Direction → Bool
is_outgoing outgoing = true
is_outgoing _ = false

abbrev pub is_unset : Direction → Bool
is_unset unset = true
is_unset _ = false

pub record Totals : Type 0 where
  pub incoming : ℕ
  pub outgoing : ℕ
  pub other : ℕ

abbrev pub count : (TrackingRecord → Bool) → List TrackingRecord → ℕ
count test records = length (keep test records)

-- The group counts by `_direction`.
abbrev pub totals_for : ℕ → List TrackingRecord → Totals
totals_for office records = record {
  incoming = count (λ r. is_incoming (direction_annotation office r)) records;
  outgoing = count (λ r. is_outgoing (direction_annotation office r)) records;
  other = count (λ r. is_unset (direction_annotation office r)) records;
}

abbrev pub no_totals : Totals
no_totals = record { incoming = 0; outgoing = 0; other = 0 }

unfoldable pub direction_totals : List TrackingRecord → Option ℕ → Totals
direction_totals records none = no_totals
direction_totals records (some office) = totals_for office records

-- `status__in=ACTIVE_STATUSES` without drafts.
abbrev pub is_live : Status → Bool
is_live draft = false
is_live completed = false
is_live _ = true

abbrev pub status_rank : Status → ℕ
status_rank draft = 0
status_rank pending_receipt = 1
status_rank received = 2
status_rank in_process = 3
status_rank completed_pending_upload = 4
status_rank completed = 5

abbrev pub same_status : Status → Status → Bool
same_status a b = status_rank a == status_rank b

abbrev pub live : List TrackingRecord → List TrackingRecord
live records = keep (λ (r : TrackingRecord). is_live r.status) records

abbrev pub at_stage : Option ℕ → Status → List TrackingRecord → List TrackingRecord
at_stage office status records = keep (λ r. same_status (stage_for r office) status) records

-- A row of the table.
pub record StatusRow : Type 0 where
  pub status : Status
  pub totals : Totals
  pub total : ℕ

abbrev pub row_for : List TrackingRecord → Option ℕ → Status → StatusRow
row_for records office status = record {
  status = status;
  totals = direction_totals (at_stage office status (live records)) office;
  total = length (at_stage office status (live records));
}

-- `Status.choices`
abbrev pub statuses : List Status
statuses =
    draft ∷ pending_receipt ∷ received ∷ in_process ∷ completed_pending_upload ∷ completed ∷ []

-- The rows of the stages that occur, in the order of the choices.
abbrev pub rows_of : List TrackingRecord → Option ℕ → List Status → List StatusRow
rows_of records office [] = []
rows_of records office (status ∷ rest) =
    let rows = rows_of records office rest in
    if ltb 0 (row_for records office status).total
    then row_for records office status ∷ rows
    else rows

unfoldable pub by_status_direction : List TrackingRecord → Option ℕ → List StatusRow
by_status_direction records office = rows_of records office statuses
