-- ===== src/Tracking/Services/Undo.antt =====
-- apps/tracking/services.py: `complete_record` followed by `reopen_record`.
use udm_doctrack.Base.{
  Bool, true, false, not, ◌&&◌, ◌||◌, none, List, [], ◌∷◌, ◌≡◌, refl, ◌∙◌, ap, sym, keep, exists,
  exists_cong, Text, arith, if◌then◌else◌, success, guard, >>=-returned, guard-success,
  success-injective, is_some, permission_denied, validation_error,
}
use udm_doctrack.Accounts.{User}
use udm_doctrack.Accounts.Capabilities.{complete, reopen}
use udm_doctrack.Tracking.{
  Status, pending_receipt, in_process, received, RoutingStep, TrackingRecord, is_pending,
  is_received, current_steps, is_draft, is_completed, is_filed, is_pending_upload,
  recalculate_status, settle, touch_movement,
}
use udm_doctrack.Tracking.Access.{can_user_act, can_user_reopen}
use udm_doctrack.Tracking.Stage.{
  stage_for, stage_case, settle-status, stage_case-default, active_stage,
}
use udm_doctrack.Tracking.Services.{Env, Desk, add_activity, refuse_viewers}
use udm_doctrack.Tracking.Services.Work.{
  ensure_received, complete_doc, complete_with, finish_body, complete_body, complete_record,
  reopen_doc, reopen_with, reopen_body, reopen_record,
}
use udm_doctrack.Tracking.Services.Authority.{guarded-success}
use udm_doctrack.Tracking.Services.Summary.{work_on-append}

-- The record that reopening recalculates.
abbrev reopening : Env → User → Text → TrackingRecord → TrackingRecord
reopening env u note r = record (complete_doc env u note r) {
  status = received;
  completed_at = none;
  completed_by = none;
  is_archived = false;
  archived_at = none;
}

-- Its steps have the work that they had, so its stage is decided as before.
reopening-stage_case :
    (env : Env) (u : User) (note : Text) (r : TrackingRecord) (steps : List RoutingStep)
    (d : Status)
    → stage_case (reopening env u note r) steps d ≡ stage_case r steps d
unfolding complete_doc add_activity
reopening-stage_case env u note r steps d =
    ap
      (λ worked.
        if exists is_pending steps
        then pending_receipt
        else if worked
        then in_process
        else if exists is_received steps
        then received
        else d)
      (exists_cong _ _ steps (λ s. ap (λ w. is_received s && w) (work_on-append r _ s refl)))

reopened_status :
    (env : Env) (u : User) (note : Text) (r : TrackingRecord) (s : RoutingStep)
    (steps : List RoutingStep)
    → (is_draft r.status || is_completed r.status) ≡ false
    → current_steps r ≡ s ∷ steps
    → stage_for r none ≡ r.status
    → (recalculate_status (reopening env u note r)).status ≡ r.status
unfolding recalculate_status complete_doc add_activity
reopened_status env u note r s steps active cur consistent =
    ap (λ l. (settle (reopening env u note r) l (keep is_received l)).status) cur
    ∙ settle-status (reopening env u note r) s steps (keep is_received (s ∷ steps)) refl cur
    ∙ reopening-stage_case env u note r (s ∷ steps) received
    ∙ stage_case-default r s steps received r.status
    ∙ ap (λ l. stage_case r l r.status) (sym cur)
    ∙ sym (active_stage r active)
    ∙ consistent

-- What a completion has done to a record that was not completed.
record Completed (env : Env) (d : Desk) (note : Text) (d' : Desk) : Type 0 where
  actor : User
  routed : is_draft d.doc.status ≡ false
  got : exists is_received (current_steps d.doc) ≡ true
  result : d'.doc ≡ complete_doc env actor note d.doc

finish_body-Completed :
    (env : Env) (u : User) (note : Text) (d d' : Desk)
    → finish_body env d note u ≡ success d'
    → Completed env d note d'
unfolding finish_body ensure_received complete_with
finish_body-Completed env u note d d' h =
    >>=-returned (guard (can_user_act env.dir none d.doc u) permission_denied) _ h (λ _ _ h1.
      >>=-returned (guard (not (is_draft d.doc.status)) validation_error) _ h1 (λ _ routed h2.
        >>=-returned (guard (exists is_received (current_steps d.doc)) validation_error) _ h2
          (λ _ got e. record {
            actor = u;
            routed =
                not_true _ (guard-success (not (is_draft d.doc.status)) validation_error routed);
            got = guard-success (exists is_received (current_steps d.doc)) validation_error got;
            result = ap (λ (x : Desk). x.doc) (sym (success-injective e));
          })))
  where
    not_true : (b : Bool) → not b ≡ true → b ≡ false
    not_true b h = ground arith

complete_record-Completed :
    (env : Env) (d : Desk) (u : User) (note : Text) (d' : Desk)
    → is_completed d.doc.status ≡ false
    → complete_record env d u note ≡ success d'
    → Completed env d note d'
unfolding complete_record complete_body
complete_record-Completed env d u note d' active h =
    let done = guarded-success env complete (complete_body env d note) u h in
    >>=-returned (refuse_viewers done.actor) _ done.returned
      (λ _ _ h1. finish_body-Completed env done.actor note d d' (rw active at h1))

reopen_record-doc :
    (env : Env) (d : Desk) (u : User) (reason : Text) (d' : Desk)
    → is_pending_upload d.doc.status ≡ true
    → reopen_record env d u reason ≡ success d'
    → (actor : User) × (d'.doc ≡ reopen_doc env actor reason d.doc)
unfolding reopen_record reopen_body reopen_with
reopen_record-doc env d u reason d' finished h =
    let done = guarded-success env reopen (reopen_body env d reason) u h in
    >>=-returned (refuse_viewers done.actor) _ done.returned (λ _ _ h1.
      >>=-returned
        (guard
          (not (is_filed d.doc.status || (d.doc.is_archived || is_some d.doc.archived_document)))
          validation_error)
        _ h1
        (λ _ _ h2.
          >>=-returned (guard (can_user_reopen env.dir none d.doc done.actor) permission_denied) _
            (rw finished at h2)
            (λ _ _ e. (done.actor, ap (λ (x : Desk). x.doc) (sym (success-injective e))))))

undone :
    (env env' : Env) (u u' : User) (note reason : Text) (r : TrackingRecord)
    (steps : List RoutingStep)
    → (is_draft r.status || is_completed r.status) ≡ false
    → current_steps r ≡ steps
    → exists is_received steps ≡ true
    → stage_for r none ≡ r.status
    → (reopen_doc env' u' reason (complete_doc env u note r)).status ≡ r.status
unfolding reopen_doc touch_movement add_activity
undone env env' u u' note reason r [] active cur got consistent = cc
undone env env' u u' note reason r (s ∷ steps) active cur got consistent =
    reopened_status env u note r s steps active cur consistent

-- Completing a record and then returning it to tracking restores the status that it had: whenever
-- a completion of a record that was not completed and a later return both succeed, by whichever
-- accounts, and the cached status agreed with the stage before, the status after is the one before.
pub reopen_record-complete_record :
    (env env' : Env) (d d1 d2 : Desk) (u u' : User) (note reason : Text)
    → stage_for d.doc none ≡ d.doc.status
    → is_completed d.doc.status ≡ false
    → complete_record env d u note ≡ success d1
    → reopen_record env' d1 u' reason ≡ success d2
    → d2.doc.status ≡ d.doc.status
unfolding complete_doc add_activity
reopen_record-complete_record env env' d d1 d2 u u' note reason consistent active h h' =
    let done = complete_record-Completed env d u note d1 active h in
    let (actor, back) =
      reopen_record-doc env' d1 u' reason d2
        (ap (λ (x : TrackingRecord). is_pending_upload x.status) done.result) h' in
    ap (λ (x : TrackingRecord). x.status) back
    ∙ ap (λ (x : TrackingRecord). (reopen_doc env' actor reason x).status) done.result
    ∙ undone env env' done.actor actor note reason d.doc (current_steps d.doc)
        (rw (done.routed, active)) refl done.got consistent
