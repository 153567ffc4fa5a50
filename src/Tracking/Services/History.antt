-- ===== src/Tracking/Services/History.antt =====
-- apps/tracking/services.py: two states of a record compared, its custody chain and its timeline
-- before and after a service.
use udm_doctrack.Base.{
  ℕ, Bool, true, false, ◌||◌, Option, none, some, List, [], ◌∷◌, ◌++◌, ◌≡◌, refl, sym, ◌∙◌, ap,
  if◌then◌else◌, keep, Text, take, arith, Bool-cases, inl, inr, subst,
}
use mathlib.Core.List.{append-nil, append_assoc}
use udm_doctrack.Accounts.{User}
use udm_doctrack.Tracking.{
  completed_pending_upload, received, Event, RoutingStep, RecordActivity, TrackingRecord, is_draft,
  is_completed, is_received, current_steps, settle, settle_received, recalculate_status,
  touch_movement,
}
use udm_doctrack.Tracking.Services.{Env, Desk, add_activity}
use udm_doctrack.Tracking.Services.Route.{
  RouteRequest, Route, event_of, enter_batch, announce, route_with,
}
use udm_doctrack.Tracking.Services.Share.{Grantee, new_grant, share_doc}
use udm_doctrack.Tracking.Services.Receive.{
  awaits, stamp_step, stamp_first, receive_doc, first_time,
}
use udm_doctrack.Tracking.Services.Work.{note_work, complete_doc, reopen_doc}

-- A step later on: only the receipt may have been written, and one that was there is unchanged.
pub record StepKept (s t : RoutingStep) : Type 0 where
  pub same : t ≡ record s {
    received_by = t.received_by;
    received_at = t.received_at;
    receipt_note = t.receipt_note;
  }
  pub once : is_received s ≡ true → t ≡ s

-- The earlier steps come first, in order, each kept.
abbrev pub StepsKept : List RoutingStep → List RoutingStep → Type 0
StepsKept [] ts = Unit
StepsKept (s ∷ ss) [] = ⊥
StepsKept (s ∷ ss) (t ∷ ts) = StepKept s t × StepsKept ss ts

-- A later state of a record.
pub record Continues (r r' : TrackingRecord) : Type 0 where
  pub timeline : (more : List RecordActivity) × (r'.activities ≡ r.activities ++ more)
  pub chain : StepsKept r.routing_steps r'.routing_steps
  pub origin :
      (r'.pk ≡ r.pk)
      × (r'.originating_office ≡ r.originating_office)
      × (r'.created_by ≡ r.created_by)

StepKept-refl : (s : RoutingStep) → StepKept s s
StepKept-refl s = record { same = refl; once = λ _. refl }

StepKept-trans : {s t u : RoutingStep} → StepKept s t → StepKept t u → StepKept s u
StepKept-trans {s} {t} {u} a b = record {
  same =
      b.same
      ∙ ap {A = RoutingStep} {B = RoutingStep}
          (λ x. record x {
            received_by = u.received_by;
            received_at = u.received_at;
            receipt_note = u.receipt_note;
          })
          a.same;
  once = λ h. b.once (subst (λ x. is_received x ≡ true) (sym (a.once h)) h) ∙ a.once h;
}

StepsKept-refl : (ss : List RoutingStep) → StepsKept ss ss
StepsKept-refl [] = tt
StepsKept-refl (s ∷ ss) = (StepKept-refl s, StepsKept-refl ss)

StepsKept-trans :
    (ss ts us : List RoutingStep) → StepsKept ss ts → StepsKept ts us → StepsKept ss us
StepsKept-trans [] ts us a b = tt
StepsKept-trans (s ∷ ss) [] us a b = elim a [ ]
StepsKept-trans (s ∷ ss) (t ∷ ts) [] a b = elim b [ ]
StepsKept-trans (s ∷ ss) (t ∷ ts) (u ∷ us) a b =
    (StepKept-trans a.0 b.0, StepsKept-trans ss ts us a.1 b.1)

StepsKept-append : (ss more : List RoutingStep) → StepsKept ss (ss ++ more)
StepsKept-append [] more = tt
StepsKept-append (s ∷ ss) more = (StepKept-refl s, StepsKept-append ss more)

-- A stamp on the first step that passes a test which no received step passes.
StepsKept-stamp_first :
    (test : RoutingStep → Bool) (now user : ℕ) (note : Text) (ss : List RoutingStep)
    → ((s : RoutingStep) → test s ≡ true → is_received s ≡ false)
    → StepsKept ss (stamp_first test (stamp_step now user note) ss)
unfolding stamp_first
StepsKept-stamp_first test now user note [] h = tt
StepsKept-stamp_first test now user note (s ∷ ss) h = elim (Bool-cases (test s)) [
  | inl here ↦ rw here (stamped s (h s here), StepsKept-refl ss)
  | inr later ↦ rw later (StepKept-refl s, StepsKept-stamp_first test now user note ss h)
]
  where
    stamped : (s : RoutingStep) → is_received s ≡ false → StepKept s (stamp_step now user note s)
    stamped s pending = record { same = refl; once = λ received. cc }

-- New steps at the end, beside a change to other columns.
grown-Continues :
    (r r' : TrackingRecord) (more : List RoutingStep)
    → r'.activities ≡ r.activities
    → r'.routing_steps ≡ r.routing_steps ++ more
    → (r'.pk ≡ r.pk)
      × (r'.originating_office ≡ r.originating_office)
      × (r'.created_by ≡ r.created_by)
    → Continues r r'
grown-Continues r r' more e e' origin = record {
  timeline = ([], e ∙ sym (append-nil r.activities));
  chain = subst (StepsKept r.routing_steps) (sym e') (StepsKept-append r.routing_steps more);
  origin = origin;
}

-- A change to other columns only.
same-Continues :
    (r r' : TrackingRecord)
    → r'.activities ≡ r.activities
    → r'.routing_steps ≡ r.routing_steps
    → (r'.pk ≡ r.pk)
      × (r'.originating_office ≡ r.originating_office)
      × (r'.created_by ≡ r.created_by)
    → Continues r r'
same-Continues r r' e e' = grown-Continues r r' [] e (e' ∙ sym (append-nil r.routing_steps))

pub Continues-refl : (r : TrackingRecord) → Continues r r
Continues-refl r = same-Continues r r refl refl (refl, refl, refl)

pub Continues-trans : {r s t : TrackingRecord} → Continues r s → Continues s t → Continues r t
Continues-trans {r} {s} {t} a b = record {
  timeline = (
    a.timeline.0 ++ b.timeline.0,
    b.timeline.1
        ∙ ap (λ (l : List RecordActivity). l ++ b.timeline.0) a.timeline.1
        ∙ append_assoc r.activities a.timeline.0 b.timeline.0,
  );
  chain = StepsKept-trans r.routing_steps s.routing_steps t.routing_steps a.chain b.chain;
  origin = (b.origin.0 ∙ a.origin.0, b.origin.1 ∙ a.origin.1, b.origin.2 ∙ a.origin.2);
}

-- `recalculate_status` writes the summary columns and nothing else.
abbrev pub OnlySummary : TrackingRecord → TrackingRecord → Type 0
OnlySummary r r' = r' ≡ record r {
  status = r'.status;
  current_office = r'.current_office;
  current_holder = r'.current_holder;
}

settle-frame :
    (r : TrackingRecord) (steps got : List RoutingStep) → OnlySummary r (settle r steps got)
unfolding settle settle_received
settle-frame r [] got = refl
settle-frame r (s ∷ steps) [] = refl
settle-frame r (s ∷ steps) (t ∷ got) = refl

pub recalculate_status-frame : (r : TrackingRecord) → OnlySummary r (recalculate_status r)
unfolding recalculate_status
recalculate_status-frame r =
    cases (is_draft r.status || is_completed r.status) _
      (settle-frame r (current_steps r) (keep is_received (current_steps r)))
  where
    cases :
        (t : Bool) (r' : TrackingRecord) → OnlySummary r r' → OnlySummary r (if t then r else r')
    cases true r' h = refl
    cases false r' h = h

-- Two states that agree outside the summary continue each other.
pub recalculate_status-Continues : (r : TrackingRecord) → Continues r (recalculate_status r)
recalculate_status-Continues r =
    let frame = recalculate_status-frame r in
    same-Continues r (recalculate_status r) (ap (λ (x : TrackingRecord). x.activities) frame)
      (ap (λ (x : TrackingRecord). x.routing_steps) frame)
      (
        ap (λ (x : TrackingRecord). x.pk) frame,
        ap (λ (x : TrackingRecord). x.originating_office) frame,
        ap (λ (x : TrackingRecord). x.created_by) frame,
      )

pub add_activity-Continues :
    (now : ℕ) (event : Event) (message : Text) (u : User) (detail : Text) (batch : Option ℕ)
    (r : TrackingRecord)
    → Continues r (add_activity now event message u detail batch r)
unfolding add_activity
add_activity-Continues now event message u detail batch r = record {
  timeline = (_, refl);
  chain = StepsKept-refl r.routing_steps;
  origin = (refl, refl, refl);
}

touch_movement-Continues : (now : ℕ) (r : TrackingRecord) → Continues r (touch_movement now r)
unfolding touch_movement
touch_movement-Continues now r = same-Continues r _ refl refl (refl, refl, refl)

pub note_work-Continues :
    (env : Env) (message detail : Text) (u : User) (r : TrackingRecord)
    → Continues r (note_work env message detail u r)
note_work-Continues env message detail u r =
    Continues-trans (add_activity-Continues env.now Event.remark message u detail none r)
      (Continues-trans (recalculate_status-Continues _) (touch_movement-Continues env.now _))

pub complete_doc-Continues :
    (env : Env) (u : User) (note : Text) (r : TrackingRecord)
    → Continues r (complete_doc env u note r)
unfolding complete_doc
complete_doc-Continues env u note r =
    Continues-trans
      (same-Continues r
        (record r {
          status = completed_pending_upload;
          completed_at = some env.now;
          completed_by = some u.pk;
          completion_note = take 2000 note;
          last_movement_at = env.now;
        })
        refl refl (refl, refl, refl))
      (add_activity-Continues env.now Event.finished _ u note none _)

pub reopen_doc-Continues :
    (env : Env) (u : User) (reason : Text) (r : TrackingRecord)
    → Continues r (reopen_doc env u reason r)
unfolding reopen_doc
reopen_doc-Continues env u reason r =
    Continues-trans
      (same-Continues r
        (record r {
          status = received;
          completed_at = none;
          completed_by = none;
          is_archived = false;
          archived_at = none;
        })
        refl refl (refl, refl, refl))
      (Continues-trans (recalculate_status-Continues _) (
        Continues-trans (add_activity-Continues env.now Event.reopened _ u reason none _)
          (touch_movement-Continues env.now _)))

awaits-pending :
    (r : TrackingRecord) (office : ℕ) (s : RoutingStep)
    → awaits r office s ≡ true
    → is_received s ≡ false
awaits-pending r office s h = ground arith

pub receive_doc-Continues :
    (env : Env) (u : User) (office : ℕ) (note : Text) (r : TrackingRecord)
    → Continues r (receive_doc env u office note r)
unfolding receive_doc
receive_doc-Continues env u office note r = Continues-trans stamped (
    Continues-trans (add_activity-Continues env.now Event.receipt _ u note none _)
      (Continues-trans (recalculate_status-Continues _) (touch_movement-Continues env.now _)))
  where
    stamped : Continues r (record r {
      routing_steps = stamp_first (awaits r office) (stamp_step env.now u.pk note) r.routing_steps;
      first_received_at = first_time r.first_received_at env.now;
    })
    stamped = record {
      timeline = ([], sym (append-nil r.activities));
      chain =
          StepsKept-stamp_first (awaits r office) env.now u.pk note r.routing_steps
            (awaits-pending r office);
      origin = (refl, refl, refl);
    }

enter_batch-Continues :
    (env : Env) (u : User) (q : RouteRequest) (p : Route) (d : Desk)
    → Continues d.doc (enter_batch env u q p d).doc
unfolding enter_batch
enter_batch-Continues env u q p d = elim (Bool-cases (is_draft d.doc.status)) [
  | inl new ↦ rw new (grown-Continues d.doc _ _ refl refl (refl, refl, refl))
  | inr sent ↦ rw sent (grown-Continues d.doc _ _ refl refl (refl, refl, refl))
]

pub route_with-Continues :
    (env : Env) (u : User) (q : RouteRequest) (p : Route) (d : Desk)
    → Continues d.doc (route_with env u q p d).doc
unfolding route_with announce
route_with-Continues env u q p d = Continues-trans (enter_batch-Continues env u q p d) (
    Continues-trans (recalculate_status-Continues (enter_batch env u q p d).doc) (
      add_activity-Continues env.now (event_of p.action) _ u _ _
        (recalculate_status (enter_batch env u q p d).doc)))

pub share_doc-Continues :
    (env : Env) (u : User) (reason : Text) (g : Grantee) (r : TrackingRecord)
    → Continues r (share_doc env u reason g r)
unfolding share_doc
share_doc-Continues env u reason g r =
    Continues-trans
      (same-Continues r (record r { grants = r.grants ++ new_grant u reason g ∷ [] }) refl refl
        (refl, refl, refl))
      (add_activity-Continues env.now Event.access _ u reason none _)
