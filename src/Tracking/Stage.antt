-- ===== src/Tracking/Stage.antt =====
-- The stage that list queries compute (`with_stage_for`), and the cached status.
use udm_doctrack.Base.{
  ℕ, Bool, true, false, not, ◌&&◌, ◌||◌, Option, none, some, List, [], ◌∷◌, ◌≡◌, refl, sym, ap, ◌∙◌,
  ◌==◌, ltb, if◌then◌else◌, exists, keep, length, arith, Bool-cases, inl, inr, exists_cong,
  exists-keep, exists_const', exists_swap, length-keep_lt,
}
use udm_doctrack.Tracking.{
  Status, pending_receipt, received, in_process, RoutingStep, RecordActivity, TrackingRecord,
  is_draft, is_completed, in_batch, current_steps, is_received, is_pending, addressed_to, is_work,
  follows, receipts_of, has_activity_after_receipt, settle_received, settle, recalculate_status,
}

-- `Exists(work)` for a step: some work of its recipient in its batch, at or after its receipt.
abbrev pub work_on : TrackingRecord → RoutingStep → Bool
work_on r s =
    exists (λ (a : RecordActivity). (a.batch == s.batch) && (follows a s && is_work a)) r.activities

-- The `Case` over a set of steps; the last branch is its default.
abbrev pub stage_case : TrackingRecord → List RoutingStep → Status → Status
stage_case r steps default =
    if exists is_pending steps
    then pending_receipt
    else if exists (λ s. is_received s && work_on r s) steps
    then in_process
    else if exists is_received steps
    then received
    else default

unfoldable pub aggregate_stage : TrackingRecord → Status
aggregate_stage r = stage_case r (current_steps r) r.status

unfoldable pub local_stage : TrackingRecord → Option ℕ → Status
local_stage r none = aggregate_stage r
local_stage r (some office) =
    stage_case r (keep (addressed_to office) (current_steps r)) (aggregate_stage r)

-- One disjoint stage per record, from the selected office's view (`none`: every office).
unfoldable pub stage_for : TrackingRecord → Option ℕ → Status
stage_for r office =
    if is_draft r.status || is_completed r.status then r.status else local_stage r office

and_shuffle : (f b w : Bool) → (f && (b && w)) ≡ (b && (f && w))
and_shuffle f b w = ground arith

-- A step of the current batch that was received and worked on.
worked_step :
    (r : TrackingRecord) (s : RoutingStep)
    → (in_batch r.current_batch s
        && (is_received s
            && exists
                (λ a. follows a s && ((a.batch == r.current_batch) && is_work a))
                r.activities))
      ≡ (in_batch r.current_batch s && (is_received s && work_on r s))
worked_step r s = elim (Bool-cases (in_batch r.current_batch s)) [
  | inr elsewhere ↦ rw elsewhere
  | inl here ↦ rw here (rw (exists_cong _ _ r.activities (same_batch here)) refl)
]
  where
    same_batch :
        s.batch == r.current_batch ≡ true
        → (a : RecordActivity)
        → (follows a s && ((a.batch == r.current_batch) && is_work a))
          ≡ ((a.batch == s.batch) && (follows a s && is_work a))
    same_batch here a =
        let same : (a.batch == r.current_batch) ≡ (a.batch == s.batch) = ground arith in
        ap (λ b. follows a s && (b && is_work a)) same
        ∙ and_shuffle (follows a s) (a.batch == s.batch) (is_work a)

-- The record's own test for work and the query's find the same.
activity-working :
    (r : TrackingRecord)
    → has_activity_after_receipt r none
      ≡ exists (λ s. is_received s && work_on r s) (current_steps r)
unfolding has_activity_after_receipt
activity-working r =
    exists_cong _ _ r.activities
      (λ a. sym (exists_const' (this_batch a) (follows a) (receipts_of r none)))
    ∙ exists_swap (λ (a : RecordActivity) s. follows a s && this_batch a) r.activities
        (receipts_of r none)
    ∙ exists-keep worked is_received (current_steps r)
    ∙ exists-keep (λ s. is_received s && worked s) (in_batch r.current_batch) r.routing_steps
    ∙ exists_cong _ _ r.routing_steps (worked_step r)
    ∙ sym
        (exists-keep (λ s. is_received s && work_on r s) (in_batch r.current_batch) r.routing_steps)
  where
    this_batch : RecordActivity → Bool
    this_batch a = (a.batch == r.current_batch) && is_work a

    worked : RoutingStep → Bool
    worked s = exists (λ a. follows a s && this_batch a) r.activities

not_received : (s : RoutingStep) → not (is_received s) ≡ is_pending s
not_received s = ground arith

fewer-pending :
    (steps : List RoutingStep)
    → ltb (length (keep is_received steps)) (length steps) ≡ exists is_pending steps
fewer-pending steps = length-keep_lt is_received steps ∙ exists_cong _ is_pending steps not_received

none_received :
    (s : RoutingStep) (steps : List RoutingStep)
    → keep is_received (s ∷ steps) ≡ []
    → exists is_pending (s ∷ steps) ≡ true
none_received s steps e = ground arith

some_received :
    (steps : List RoutingStep) (t : RoutingStep) (ts : List RoutingStep)
    → keep is_received steps ≡ t ∷ ts
    → exists is_received steps ≡ true
some_received [] t ts e = cc
some_received (s ∷ steps) t ts e = ground (arith, some_received steps t ts)

-- What the two readings decide from the same three facts.
ladder :
    (awaiting working got : Bool) (default : Status)
    → got ≡ true
    → (if awaiting
        then pending_receipt
        else if working
        then in_process
        else if got
        then received
        else default)
      ≡ (if awaiting then pending_receipt else if working then in_process else received)
ladder awaiting working got default e = ground arith

pub active_stage :
    (r : TrackingRecord)
    → (is_draft r.status || is_completed r.status) ≡ false
    → stage_for r none ≡ stage_case r (current_steps r) r.status
unfolding stage_for local_stage aggregate_stage
active_stage r e = rw e

-- The status that `settle` gives, from the current batch's steps.
pub settle-status :
    (r : TrackingRecord) (s : RoutingStep) (steps got : List RoutingStep)
    → keep is_received (s ∷ steps) ≡ got
    → current_steps r ≡ s ∷ steps
    → (settle r (s ∷ steps) got).status ≡ stage_case r (s ∷ steps) r.status
unfolding settle settle_received
settle-status r s steps [] e cur = rw (none_received s steps e)
settle-status r s steps (t ∷ ts) e cur =
    let awaiting = rw e at (fewer-pending (s ∷ steps)) in
    let working = rw cur at (activity-working r) in
    rw (awaiting, working)
      (sym (
        ladder (exists is_pending (s ∷ steps))
          (exists (λ x. is_received x && work_on r x) (s ∷ steps)) (exists is_received (s ∷ steps))
          r.status (some_received (s ∷ steps) t ts e)))

-- A step is pending or received, so over a batch with a step the default is never read.
decided :
    (awaiting working got : Bool) (d e : Status)
    → (awaiting || got) ≡ true
    → (if awaiting
        then pending_receipt
        else if working
        then in_process
        else if got
        then received
        else d)
      ≡ (if awaiting
          then pending_receipt
          else if working
          then in_process
          else if got
          then received
          else e)
decided awaiting working got d e h = ground arith

pending_or_received :
    (s : RoutingStep) (steps : List RoutingStep)
    → (exists is_pending (s ∷ steps) || exists is_received (s ∷ steps)) ≡ true
pending_or_received s steps = ground arith

pub stage_case-default :
    (r : TrackingRecord) (s : RoutingStep) (steps : List RoutingStep) (d e : Status)
    → stage_case r (s ∷ steps) d ≡ stage_case r (s ∷ steps) e
stage_case-default r s steps d e =
    decided (exists is_pending (s ∷ steps)) (exists (λ x. is_received x && work_on r x) (s ∷ steps))
      (exists is_received (s ∷ steps)) d e (pending_or_received s steps)

-- From an active reading of a record that differs from `r` in its summary columns only.
settled_cons :
    (r : TrackingRecord) (s : RoutingStep) (steps got : List RoutingStep)
    → keep is_received (s ∷ steps) ≡ got
    → current_steps r ≡ s ∷ steps
    → let r' = settle r (s ∷ steps) got in stage_for r' none ≡ r'.status
settled_cons r s steps [] e cur =
    let r' = settle r (s ∷ steps) [] in
    unfold settle in
    active_stage r' refl
    ∙ ap (λ c. stage_case r c pending_receipt) cur
    ∙ stage_case-default r s steps pending_receipt r.status
    ∙ sym (settle-status r s steps [] e cur)
settled_cons r s steps (t ∷ ts) e cur =
    let r' = settle r (s ∷ steps) (t ∷ ts) in
    unfold settle settle_received in
    active_stage r' (ground arith)
    ∙ ap (λ c. stage_case r c r'.status) cur
    ∙ stage_case-default r s steps r'.status r.status
    ∙ sym (settle-status r s steps (t ∷ ts) e cur)

settled_stage :
    (r : TrackingRecord) (steps : List RoutingStep)
    → current_steps r ≡ steps
    → let r' = settle r steps (keep is_received steps) in stage_for r' none ≡ r'.status
settled_stage r [] cur = unfold settle stage_for in refl
settled_stage r (s ∷ steps) cur = settled_cons r s steps (keep is_received (s ∷ steps)) refl cur

-- Whatever the record, the status that `recalculate_status` caches is the stage that the list
-- queries compute for it from its steps and timeline.
pub recalculate_status-stage :
    (r : TrackingRecord) → stage_for (recalculate_status r) none ≡ (recalculate_status r).status
unfolding recalculate_status
recalculate_status-stage r = elim (Bool-cases (is_draft r.status || is_completed r.status)) [
  | inl fixed ↦ rw fixed (unfold stage_for in rw fixed)
  | inr active ↦ rw active (settled_stage r (current_steps r) refl)
]
