-- ===== src/Tracking/Services/Run/Keeps.antt =====
-- apps/tracking/services.py: the record before and after any sequence of service calls.
use udm_doctrack.Base.{
  exists, Bool, true, false, not, none, List, [], ◌∷◌, ◌≡◌, refl, subst, Text, Outcome, success,
  raised, guard, >>=-returned, not_returned, success-injective, ◌&&◌, ◌||◌, is_some, opt_eq,
  is_empty, strip, take, permission_denied, validation_error, Bool-cases, inl, inr, if◌then◌else◌,
}
use udm_doctrack.Accounts.{User, is_system_admin}
use udm_doctrack.Tracking.Access.{can_user_act, can_user_view, can_user_reopen}
use udm_doctrack.Tracking.Stage.{stage_for}
use udm_doctrack.Tracking.{
  TrackingRecord, is_draft, is_filed, is_completed, is_pending_upload, has_activity_after_receipt,
}
use udm_doctrack.Tracking.Services.{Env, Desk, refuse_viewers}
use udm_doctrack.Tracking.Services.Route.{RouteRequest, route_body, route_with, check_route}
use udm_doctrack.Tracking.Services.Share.{
  ShareRequest, Grantee, is_for, check_share, create_grant, share_with, share_body,
}
use udm_doctrack.Tracking.Services.Receive.{receive_body, receive_with, check_receipt}
use udm_doctrack.Tracking.Services.Work.{
  note_work, ensure_received, marking_office, remark_body, remark_with, in_process_body,
  in_process_with, complete_body, already_completed, finish_body, complete_with, reopen_body,
  reopen_with,
}
use udm_doctrack.Tracking.Services.Summary.{
  IsConsistent, route_with-IsConsistent, receive_doc-IsConsistent, note_work-IsConsistent,
  complete_doc-IsConsistent, reopen_doc-IsConsistent, share_doc-IsConsistent,
}
use udm_doctrack.Tracking.Services.History.{
  Continues, Continues-refl, Continues-trans, route_with-Continues, receive_doc-Continues,
  note_work-Continues, complete_doc-Continues, reopen_doc-Continues, share_doc-Continues,
}
use udm_doctrack.Tracking.Services.Run.{
  Call, route_call, share_call, receive_call, remark_call, in_process_call, complete_call,
  reopen_call, Turn, perform, or_before, run,
}
use udm_doctrack.Tracking.Services.Run.Authorised.{body_of, perform-Authorised}

-- The later record continues the earlier one, with a cached status as good as before.
abbrev pub Kept : TrackingRecord → TrackingRecord → Type 0
Kept r r' = Continues r r' × (IsConsistent r → IsConsistent r')

Kept-refl : (r : TrackingRecord) → Kept r r
Kept-refl r = (Continues-refl r, λ h. h)

-- From what the body returned to the desk that the call left.
returned :
    (r : TrackingRecord) (d d' : Desk) → success d ≡ success d' → Kept r d.doc → Kept r d'.doc
returned r d d' e = subst (λ (x : Desk). Kept r x.doc) (success-injective e)

route_body-Kept :
    (env : Env) (u : User) (q : RouteRequest) (d d' : Desk)
    → route_body env d q u ≡ success d'
    → Kept d.doc d'.doc
unfolding route_body
route_body-Kept env u q d d' h = >>=-returned (check_route env d.doc u q) _ h (λ p _ e.
    returned d.doc (route_with env u q p d) d' e
      (route_with-Continues env u q p d, λ _. route_with-IsConsistent env u q p d))

receive_body-Kept :
    (env : Env) (u : User) (note : Text) (d d' : Desk)
    → receive_body env d note u ≡ success d'
    → Kept d.doc d'.doc
unfolding receive_body
receive_body-Kept env u note d d' h = >>=-returned (check_receipt d.doc u) _ h (λ at _ e.
    returned d.doc (receive_with env u at.0 at.1 note d) d' e (
      unfold receive_with in
      (
        receive_doc-Continues env u at.0 note d.doc,
        λ _. receive_doc-IsConsistent env u at.0 note d.doc,
      )))

note_work-Kept :
    (env : Env) (message detail : Text) (u : User) (r : TrackingRecord)
    → Kept r (note_work env message detail u r)
note_work-Kept env message detail u r =
    (note_work-Continues env message detail u r, λ _. note_work-IsConsistent env message detail u r)

remark_body-Kept :
    (env : Env) (u : User) (remark : Text) (d d' : Desk)
    → remark_body env d remark u ≡ success d'
    → Kept d.doc d'.doc
unfolding remark_body
remark_body-Kept env u remark d d' h = >>=-returned (refuse_viewers u) _ h (λ _ _ h1.
    >>=-returned (guard (can_user_act env.dir none d.doc u) permission_denied) _ h1 (λ _ _ h2.
      >>=-returned (guard (not (is_empty (strip remark))) validation_error) _ h2 (λ _ _ e.
        returned d.doc (remark_with env u (take 2000 (strip remark)) d) d' e
          (unfold remark_with in note_work-Kept env _ _ u d.doc))))

in_process_body-Kept :
    (env : Env) (u : User) (note : Text) (d d' : Desk)
    → in_process_body env d note u ≡ success d'
    → Kept d.doc d'.doc
unfolding in_process_body
in_process_body-Kept env u note d d' h = >>=-returned (refuse_viewers u) _ h (λ _ _ h1.
    >>=-returned (guard (not (is_completed d.doc.status)) validation_error) _ h1 (λ _ _ h2.
      >>=-returned (guard (not (is_draft d.doc.status)) validation_error) _ h2 (λ _ _ h3.
        >>=-returned (ensure_received d.doc) _ h3 (λ _ _ h4.
          >>=-returned (guard (can_user_act env.dir none d.doc u) permission_denied) _ h4 (λ _ _ e.
            returned d.doc _ d' e
              (marked (has_activity_after_receipt d.doc (marking_office d.doc u))))))))
  where
    marked : (t : Bool) → Kept d.doc (if t then d else in_process_with env u note d).doc
    marked true = Kept-refl d.doc
    marked false = unfold in_process_with in note_work-Kept env _ note u d.doc

finish_body-Kept :
    (env : Env) (u : User) (note : Text) (d d' : Desk)
    → finish_body env d note u ≡ success d'
    → Kept d.doc d'.doc
unfolding finish_body
finish_body-Kept env u note d d' h =
    >>=-returned (guard (can_user_act env.dir none d.doc u) permission_denied) _ h (λ _ _ h1.
      >>=-returned (guard (not (is_draft d.doc.status)) validation_error) _ h1 (λ _ _ h2.
        >>=-returned (ensure_received d.doc) _ h2 (λ _ _ e.
          returned d.doc (complete_with env u note d) d' e (
            unfold complete_with in
            (
              complete_doc-Continues env u note d.doc,
              λ _. complete_doc-IsConsistent env u note d.doc,
            )))))

-- The answer to a second completion is the record as it is.
already_completed-Kept :
    (env : Env) (u : User) (d d' : Desk)
    → already_completed env d u ≡ success d'
    → Kept d.doc d'.doc
unfolding already_completed
already_completed-Kept env u d d' h =
    answer
      (is_system_admin u
        || (can_user_view env.dir none d.doc u && opt_eq u.office_id d.doc.current_office))
      h
  where
    answer :
        (t : Bool)
        → (if t then success d else raised permission_denied) ≡ success d'
        → Kept d.doc d'.doc
    answer true e = returned d.doc d d' e (Kept-refl d.doc)
    answer false e = elim (not_returned permission_denied d' e) [ ]

complete_body-Kept :
    (env : Env) (u : User) (note : Text) (d d' : Desk)
    → complete_body env d note u ≡ success d'
    → Kept d.doc d'.doc
unfolding complete_body
complete_body-Kept env u note d d' h = >>=-returned (refuse_viewers u) _ h (λ _ _ h1.
    elim (Bool-cases (is_completed d.doc.status)) [
      | inl again ↦ already_completed-Kept env u d d' (rw again at h1)
      | inr open_ ↦ finish_body-Kept env u note d d' (rw open_ at h1)
    ])

reopen_body-Kept :
    (env : Env) (u : User) (reason : Text) (d d' : Desk)
    → reopen_body env d reason u ≡ success d'
    → Kept d.doc d'.doc
unfolding reopen_body
reopen_body-Kept env u reason d d' h = >>=-returned (refuse_viewers u) _ h (λ _ _ h1.
    >>=-returned
      (guard (not (is_filed d.doc.status || (d.doc.is_archived || is_some d.doc.archived_document)))
        validation_error)
      _ h1
      (λ _ _ h2. elim (Bool-cases (is_pending_upload d.doc.status)) [
        | inr moving ↦ returned d.doc d d' (rw moving at h2) (Kept-refl d.doc)
        | inl finished ↦
            >>=-returned (guard (can_user_reopen env.dir none d.doc u) permission_denied) _
              (rw finished at h2)
              (λ _ _ e. returned d.doc (reopen_with env u reason d) d' e (
                unfold reopen_with in
                (
                  reopen_doc-Continues env u reason d.doc,
                  λ _. reopen_doc-IsConsistent env u reason d.doc,
                )))
      ]))

share_with-Kept :
    (env : Env) (u : User) (reason : Text) (g : Grantee) (d : Desk)
    → Kept d.doc (share_with env u reason g d).doc
unfolding share_with create_grant
share_with-Kept env u reason g d = by_grant (exists (is_for g) d.doc.grants)
  where
    by_grant : (there : Bool) → Kept d.doc (if there then d else create_grant env u reason g d).doc
    by_grant true = Kept-refl d.doc
    by_grant false =
        (share_doc-Continues env u reason g d.doc, share_doc-IsConsistent env u reason g d.doc)

share_body-Kept :
    (env : Env) (u : User) (q : ShareRequest) (d d' : Desk)
    → share_body env d q u ≡ success d'
    → Kept d.doc d'.doc
unfolding share_body
share_body-Kept env u q d d' h = >>=-returned (check_share env d.doc u q) _ h (λ g _ e.
    returned d.doc (share_with env u q.reason g d) d' e (share_with-Kept env u q.reason g d))

body_of-Kept :
    (env : Env) (u : User) (call : Call) (d d' : Desk)
    → body_of env call d u ≡ success d'
    → Kept d.doc d'.doc
body_of-Kept env u (route_call q) d d' h = route_body-Kept env u q d d' h
body_of-Kept env u (share_call q) d d' h = share_body-Kept env u q d d' h
body_of-Kept env u (receive_call note) d d' h = receive_body-Kept env u note d d' h
body_of-Kept env u (remark_call remark) d d' h = remark_body-Kept env u remark d d' h
body_of-Kept env u (in_process_call note) d d' h = in_process_body-Kept env u note d d' h
body_of-Kept env u (complete_call note) d d' h = complete_body-Kept env u note d d' h
body_of-Kept env u (reopen_call reason) d d' h = reopen_body-Kept env u reason d d' h

perform-Kept :
    (env : Env) (u : User) (call : Call) (d d' : Desk)
    → perform env u call d ≡ success d'
    → Kept d.doc d'.doc
perform-Kept env u call d d' h =
    let done = perform-Authorised env u call d h in
    body_of-Kept env done.actor call d d' done.returned

attempt-Kept :
    (d : Desk) (result : Outcome Desk)
    → ((d' : Desk) → result ≡ success d' → Kept d.doc d'.doc)
    → Kept d.doc (or_before d result).doc
attempt-Kept d (success d') h = h d' refl
attempt-Kept d (raised e) h = Kept-refl d.doc

run-Kept : (turns : List Turn) (d : Desk) → Kept d.doc (run turns d).doc
unfolding run
run-Kept [] d = Kept-refl d.doc
run-Kept (t ∷ turns) d =
    let now = attempt-Kept d (perform t.env t.user t.call d) (perform-Kept t.env t.user t.call d) in
    let later = run-Kept turns (or_before d (perform t.env t.user t.call d)) in
    (Continues-trans now.0 later.0, λ h. later.1 (now.1 h))

-- However services are called on a record, in any order, by any accounts and with any of them
-- refused: a cached status that agrees with the stage of the list queries still does.
pub run-stage :
    (turns : List Turn) (d : Desk)
    → stage_for d.doc none ≡ d.doc.status
    → stage_for (run turns d).doc none ≡ (run turns d).doc.status
run-stage turns d h = (run-Kept turns d).1 h

-- However services are called on a record, its timeline and custody chain are append-only: the
-- earlier entries stay in front, the earlier steps stay in front and in order with nothing but a
-- missing receipt ever filled in, and the record's key, origin and author stay.
pub run-history : (turns : List Turn) (d : Desk) → Continues d.doc (run turns d).doc
run-history turns d = (run-Kept turns d).0
