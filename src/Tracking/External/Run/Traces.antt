-- ===== src/Tracking/External/Run/Traces.antt =====
-- apps/tracking/external_services.py: the timeline, the audit log and the revision after each change.
use udm_doctrack.Base.{
  ℕ, Bool, true, false, not, ◌&&◌, Option, none, some, List, [], ◌++◌, ◌≡◌, refl, subst,
  if◌then◌else◌, is_some, is_empty, Text, text, success, guard, >>=-returned, success-injective,
  permission_denied, validation_error,
}
use udm_doctrack.Accounts.{User}
use udm_doctrack.Tracking.{in_process, is_draft, is_pending_upload, is_filed}
use udm_doctrack.Tracking.Services.{Env}
use udm_doctrack.Tracking.External.{
  ExternalOffice, is_external_party, sent, receipt, remark, external_work, finished, reopened,
  annotation, corrected, current_step, responsible_office, can_act,
}
use udm_doctrack.Tracking.External.Calls.{
  Ledger, require_manager, text_within, actual, latest_actual, add_event, require_unfrozen,
}
use udm_doctrack.Tracking.External.Moves.{
  ExternalRoute, check_dispatch, dispatch, route_body, pending_step, receipt_time, receive_doc,
  receive_body,
}
use udm_doctrack.Tracking.External.Work.{
  with_status, not_blank, work_started, remark_body, work_boundary, external_work_body,
  complete_doc, complete_body, reopen_doc, reopen_body, annotate_body,
}
use udm_doctrack.Tracking.External.Correct.{
  Changes, step_numbered, correct_doc, found_step, check_correction, correct_body,
}
use udm_doctrack.Tracking.External.Run.{
  Call, route_call, confirm_call, receipt_call, remark_call, annotate_call, reopen_call, work_call,
  complete_call, correct_call, Turn,
}
use udm_doctrack.Tracking.External.Run.Guarded.{body_of}
use udm_doctrack.Tracking.External.Run.Trace.{
  Traced, Same-of, add_event-Traced, renotified-Traced, dispatch-Same, worked-Same,
}

route_body-Traced :
    (env : Env) (entries : List ExternalOffice) (q : ExternalRoute) (u : User) (d d' : Ledger)
    → route_body env entries q u d ≡ success d'
    → Traced env.now u.pk d.doc.revision d d'
unfolding route_body
route_body-Traced env entries q u d d' h =
    >>=-returned (check_dispatch env entries d.doc u q) _ h (λ p _ h1.
      >>=-returned
        (add_event env u sent (text "Routed to " ++ p.to_name) [] (some p.sent_at) none
          (dispatch env u p q.due_at d))
        _ h1
        (λ d1 entered e. subst (Traced env.now u.pk d.doc.revision d) (success-injective e) (
          renotified-Traced env.now u.pk d.doc.revision _ d d1 (
            add_event-Traced env u sent _ [] (some p.sent_at) none d (dispatch env u p q.due_at d)
              d1 (dispatch-Same env u p q.due_at d) entered))))

receive_body-Traced :
    (env : Env) (reported : Bool) (at : Option ℕ) (note : Text) (u : User) (d d' : Ledger)
    → receive_body env reported at note u d ≡ success d'
    → Traced env.now u.pk d.doc.revision d d'
unfolding receive_body receive_doc
receive_body-Traced env reported at note u d d' h =
    >>=-returned (require_unfrozen d.doc) _ h (λ _ _ h1.
      >>=-returned (pending_step (current_step d.doc)) _ h1 (λ s _ h2.
        >>=-returned (receipt_time env d.doc u s reported at) _ h2 (λ time _ h3.
          >>=-returned (text_within 2000 note) _ h3 (λ written _ h4.
            >>=-returned
              (add_event env u receipt (text "Receipt confirmed at " ++ s.to_name) [] (some time)
                none (record d { doc = receive_doc env.now u reported time written s d.doc }))
              _ h4
              (λ d1 entered e. subst (Traced env.now u.pk d.doc.revision d) (success-injective e) (
                renotified-Traced env.now u.pk d.doc.revision _ d d1 (
                  add_event-Traced env u receipt _ [] (some time) none d _ d1
                    (Same-of d _ refl refl refl refl refl refl) entered)))))))

remark_body-Traced :
    (env : Env) (message : Text) (u : User) (d d' : Ledger)
    → remark_body env message u d ≡ success d'
    → Traced env.now u.pk d.doc.revision d d'
unfolding remark_body
remark_body-Traced env message u d d' h = >>=-returned (require_unfrozen d.doc) _ h (λ _ _ h1.
    >>=-returned (guard (can_act env.dir d.doc u) permission_denied) _ h1 (λ _ _ h2.
      >>=-returned (text_within 2000 message) _ h2 (λ note _ h3.
        >>=-returned (not_blank note) _ h3 (λ _ _ h4.
          add_event-Traced env u remark (text "Remark added") note
            (if is_external_party d.doc.custodian then none else some env.now) none d _ d'
            (worked-Same (work_started d.doc) d) h4))))

external_work_body-Traced :
    (env : Env) (at : Option ℕ) (message : Text) (u : User) (d d' : Ledger)
    → external_work_body env at message u d ≡ success d'
    → Traced env.now u.pk d.doc.revision d d'
unfolding external_work_body
external_work_body-Traced env at message u d d' h =
    >>=-returned (require_unfrozen d.doc) _ h (λ _ _ h1.
      >>=-returned (require_manager u (responsible_office d.doc)) _ h1 (λ _ _ h2.
        >>=-returned (guard (not (is_draft d.doc.status)) validation_error) _ h2 (λ _ _ h3.
          >>=-returned
            (guard (is_external_party d.doc.custodian && can_act env.dir d.doc u) validation_error)
            _ h3
            (λ _ _ h4. >>=-returned (actual env.now at (work_boundary d.doc)) _ h4 (λ time _ h5.
              >>=-returned (text_within 2000 message) _ h5 (λ note _ h6.
                add_event-Traced env u external_work (text "External work recorded") note
                  (some time) none d (with_status in_process d) d' (worked-Same true d) h6))))))

complete_body-Traced :
    (env : Env) (note : Text) (at : Option ℕ) (u : User) (d d' : Ledger)
    → complete_body env note at u d ≡ success d'
    → Traced env.now u.pk d.doc.revision d d'
unfolding complete_body
complete_body-Traced env note at u d d' h = >>=-returned (require_unfrozen d.doc) _ h (λ _ _ h1.
    >>=-returned (guard (not (is_draft d.doc.status) && can_act env.dir d.doc u) permission_denied)
      _ h1
      (λ _ _ h2.
        >>=-returned
          (guard (not (is_some at && not (is_external_party d.doc.custodian))) validation_error) _
          h2
          (λ _ _ h3. >>=-returned (actual env.now at (latest_actual d.doc)) _ h3 (λ time _ h4.
            >>=-returned (text_within 2000 note) _ h4 (λ written _ h5.
              >>=-returned
                (add_event env u finished (text "Completed, pending filing") written (some time)
                  none (record d { doc = complete_doc time d.doc }))
                _ h5
                (λ d1 entered e.
                  subst (Traced env.now u.pk d.doc.revision d) (success-injective e) (
                    renotified-Traced env.now u.pk d.doc.revision _ d d1 (
                      add_event-Traced env u finished _ written (some time) none d _ d1
                        (Same-of d _ refl refl refl refl refl refl) entered))))))))

reopen_body-Traced :
    (env : Env) (note : Text) (u : User) (d d' : Ledger)
    → reopen_body env note u d ≡ success d'
    → Traced env.now u.pk d.doc.revision d d'
unfolding reopen_body
reopen_body-Traced env note u d d' h =
    >>=-returned (require_manager u (responsible_office d.doc)) _ h (λ _ _ h1.
      >>=-returned (guard (is_pending_upload d.doc.status) validation_error) _ h1 (λ _ _ h2.
        >>=-returned (text_within 2000 note) _ h2 (λ written _ h3.
          >>=-returned
            (add_event env u reopened (text "Reopened for continued work") written (some env.now)
              none (record d { doc = reopen_doc d.doc }))
            _ h3
            (λ d1 entered e. subst (Traced env.now u.pk d.doc.revision d) (success-injective e) (
              renotified-Traced env.now u.pk d.doc.revision _ d d1 (
                add_event-Traced env u reopened _ written (some env.now) none d _ d1
                  (Same-of d _ refl refl refl refl refl refl) entered))))))

annotate_body-Traced :
    (env : Env) (message : Text) (u : User) (d d' : Ledger)
    → annotate_body env message u d ≡ success d'
    → Traced env.now u.pk d.doc.revision d d'
unfolding annotate_body
annotate_body-Traced env message u d d' h =
    >>=-returned (require_manager u (responsible_office d.doc)) _ h (λ _ _ h1.
      >>=-returned (text_within 2000 message) _ h1 (λ note _ h2.
        >>=-returned (not_blank note) _ h2 (λ _ _ h3.
          add_event-Traced env u annotation (text "Annotation added") note none none d d d'
            (Same-of d _ refl refl refl refl refl refl) h3)))

correct_body-Traced :
    (env : Env) (entries : List ExternalOffice) (step : ℕ) (reason : Text) (c : Changes) (u : User)
    (d d' : Ledger)
    → correct_body env entries step reason c u d ≡ success d'
    → Traced env.now u.pk d.doc.revision d d'
unfolding correct_body correct_doc
correct_body-Traced env entries step reason c u d d' h =
    >>=-returned (require_manager u (responsible_office d.doc)) _ h (λ _ _ h1.
      >>=-returned (guard (not (is_filed d.doc.status)) validation_error) _ h1 (λ _ _ h2.
        >>=-returned (text_within 2000 reason) _ h2 (λ why _ h3.
          >>=-returned (guard (not (is_empty why)) validation_error) _ h3 (λ _ _ h4.
            >>=-returned (found_step (step_numbered step d.doc.routing_steps)) _ h4 (λ s _ h5.
              >>=-returned (check_correction env entries c s d.doc) _ h5 (λ s' _ h6.
                add_event-Traced env u corrected (text "External action corrected") why none
                  (some s.sequence) d (record d { doc = correct_doc c s' u why d.doc }) d'
                  (Same-of d _ refl refl refl refl refl refl) h6))))))

pub body_of-Traced :
    (t : Turn) (call : Call) (u : User) (d d' : Ledger)
    → body_of t call u d ≡ success d'
    → Traced t.env.now u.pk d.doc.revision d d'
body_of-Traced t (route_call q) u d d' h = route_body-Traced t.env t.entries q u d d' h
body_of-Traced t (confirm_call note) u d d' h = receive_body-Traced t.env false none note u d d' h
body_of-Traced t (receipt_call at note) u d d' h = receive_body-Traced t.env true at note u d d' h
body_of-Traced t (remark_call message) u d d' h = remark_body-Traced t.env message u d d' h
body_of-Traced t (annotate_call message) u d d' h = annotate_body-Traced t.env message u d d' h
body_of-Traced t (reopen_call note) u d d' h = reopen_body-Traced t.env note u d d' h
body_of-Traced t (work_call at message) u d d' h =
    external_work_body-Traced t.env at message u d d' h
body_of-Traced t (complete_call note at) u d d' h = complete_body-Traced t.env note at u d d' h
body_of-Traced t (correct_call step reason c) u d d' h =
    correct_body-Traced t.env t.entries step reason c u d d' h
