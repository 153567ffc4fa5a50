-- ===== src/Tracking/Services/Summary.antt =====
-- apps/tracking/services.py: the cached status beside the stage of the list queries, after each
-- service.
use udm_doctrack.Base.{
  ℕ, Bool, false, not, ◌&&◌, ◌||◌, Option, none, [], ◌∷◌, ◌++◌, ◌≡◌, refl, ◌∙◌, ap, if◌then◌else◌,
  exists, exists-append, exists_cong, Text, starts_with, ◌==◌, arith,
}
use udm_doctrack.Accounts.{User}
use udm_doctrack.Tracking.{
  pending_receipt, in_process, received, Action, Event, RoutingStep, RecordActivity, TrackingRecord,
  is_draft, is_completed, is_work_event, is_work, returned_prefix, follows, is_pending, is_received,
  current_steps, recalculate_status, touch_movement,
}
use udm_doctrack.Tracking.Stage.{
  stage_for, local_stage, aggregate_stage, work_on, recalculate_status-stage,
}
use udm_doctrack.Tracking.Services.{Env, Desk, add_activity}
use udm_doctrack.Tracking.Services.Route.{
  RouteRequest, Route, event_of, enter_batch, announce, route_with,
}
use udm_doctrack.Tracking.Services.Share.{Grantee, new_grant, share_doc}
use udm_doctrack.Tracking.Services.Receive.{receive_doc}
use udm_doctrack.Tracking.Services.Work.{note_work, complete_doc, reopen_doc}

-- An entry that is no work changes no step's account of work.
pub work_on-append :
    (r : TrackingRecord) (a : RecordActivity) (s : RoutingStep)
    → is_work_event a.event ≡ false
    → work_on (record r { activities = r.activities ++ a ∷ [] }) s ≡ work_on r s
work_on-append r a s idle =
    exists-append (on_step s) r.activities (a ∷ [])
    ∙ no_more (work_on r s) (a.batch == s.batch) (follows a s) (is_work_event a.event)
        (not (starts_with returned_prefix a.message)) idle
  where
    on_step : RoutingStep → RecordActivity → Bool
    on_step s x = (x.batch == s.batch) && (follows x s && is_work x)

    no_more :
        (before b f w m : Bool) → w ≡ false → (before || ((b && (f && (w && m))) || false)) ≡ before
    no_more before b f w m e = ground arith

-- Nor does it change the record's stage.
stage_for-append :
    (r : TrackingRecord) (a : RecordActivity)
    → is_work_event a.event ≡ false
    → stage_for (record r { activities = r.activities ++ a ∷ [] }) none ≡ stage_for r none
unfolding stage_for local_stage aggregate_stage
stage_for-append r a idle =
    ap
      (λ worked.
        if is_draft r.status || is_completed r.status
        then r.status
        else if exists is_pending (current_steps r)
        then pending_receipt
        else if worked
        then in_process
        else if exists is_received (current_steps r)
        then received
        else r.status)
      (exists_cong _ _ (current_steps r)
        (λ s. ap (λ w. is_received s && w) (work_on-append r a s idle)))

pub stage_for-add_activity :
    (now : ℕ) (event : Event) (message : Text) (u : User) (detail : Text) (batch : Option ℕ)
    (r : TrackingRecord)
    → is_work_event event ≡ false
    → stage_for (add_activity now event message u detail batch r) none ≡ stage_for r none
unfolding add_activity
stage_for-add_activity now event message u detail batch r idle = stage_for-append r _ idle

-- The cached status agrees with the stage.
abbrev pub IsConsistent : TrackingRecord → Type 0
IsConsistent r = stage_for r none ≡ r.status

touch_movement-IsConsistent :
    (now : ℕ) (r : TrackingRecord) → IsConsistent r → IsConsistent (touch_movement now r)
unfolding touch_movement stage_for local_stage aggregate_stage
touch_movement-IsConsistent now r h = h

add_activity-IsConsistent :
    (now : ℕ) (event : Event) (message : Text) (u : User) (detail : Text) (batch : Option ℕ)
    (r : TrackingRecord)
    → is_work_event event ≡ false
    → IsConsistent r
    → IsConsistent (add_activity now event message u detail batch r)
add_activity-IsConsistent now event message u detail batch r idle h =
    stage_for-add_activity now event message u detail batch r idle
    ∙ h
    ∙ (unfold add_activity in refl)

sending : (action : Action) → is_work_event (event_of action) ≡ false
sending action = ground arith

pub route_with-IsConsistent :
    (env : Env) (u : User) (q : RouteRequest) (p : Route) (d : Desk)
    → IsConsistent (route_with env u q p d).doc
unfolding route_with announce
route_with-IsConsistent env u q p d =
    add_activity-IsConsistent env.now (event_of p.action) _ u _ _
      (recalculate_status (enter_batch env u q p d).doc) (sending p.action)
      (recalculate_status-stage (enter_batch env u q p d).doc)

pub receive_doc-IsConsistent :
    (env : Env) (u : User) (office : ℕ) (note : Text) (r : TrackingRecord)
    → IsConsistent (receive_doc env u office note r)
unfolding receive_doc
receive_doc-IsConsistent env u office note r =
    touch_movement-IsConsistent env.now _ (recalculate_status-stage _)

pub note_work-IsConsistent :
    (env : Env) (message detail : Text) (u : User) (r : TrackingRecord)
    → IsConsistent (note_work env message detail u r)
note_work-IsConsistent env message detail u r =
    touch_movement-IsConsistent env.now _ (recalculate_status-stage _)

pub complete_doc-IsConsistent :
    (env : Env) (u : User) (note : Text) (r : TrackingRecord)
    → IsConsistent (complete_doc env u note r)
unfolding complete_doc
complete_doc-IsConsistent env u note r =
    add_activity-IsConsistent env.now Event.finished _ u note none _ refl (unfold stage_for in refl)

pub reopen_doc-IsConsistent :
    (env : Env) (u : User) (reason : Text) (r : TrackingRecord)
    → IsConsistent (reopen_doc env u reason r)
unfolding reopen_doc
reopen_doc-IsConsistent env u reason r = touch_movement-IsConsistent env.now _ (
    add_activity-IsConsistent env.now Event.reopened _ u reason none _ refl
      (recalculate_status-stage _))

pub share_doc-IsConsistent :
    (env : Env) (u : User) (reason : Text) (g : Grantee) (r : TrackingRecord)
    → IsConsistent r
    → IsConsistent (share_doc env u reason g r)
unfolding share_doc stage_for local_stage aggregate_stage
share_doc-IsConsistent env u reason g r h =
    add_activity-IsConsistent env.now Event.access _ u reason none
      (record r { grants = r.grants ++ new_grant u reason g ∷ [] }) refl h
