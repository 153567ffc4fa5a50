-- ===== src/Tracking/External/Run/Guarded.antt =====
-- apps/tracking/external_services.py: what `_mutation` and `requires_capability` put around a change.
use udm_doctrack.Base.{
  true, false, none, some, ◌≡◌, refl, sym, ◌∙◌, Outcome, success, guard, guard-success,
  >>=-returned, success-injective, permission_denied, validation_error,
}
use udm_doctrack.Accounts.{User, can_start_work, active_user}
use udm_doctrack.Accounts.Capabilities.{
  external_tracking, active_writer, require_capability, capability_allowed,
}
use udm_doctrack.Tracking.Access.Laws.{active_user-pk}
use udm_doctrack.Tracking.Services.Authority.{active_writer-success}
use udm_doctrack.Tracking.External.{visible_to}
use udm_doctrack.Tracking.External.Calls.{
  Ledger, with_capability, mutation, guarded_mutation, next_revision, is_revision,
}
use udm_doctrack.Tracking.External.Moves.{
  route_body, receive_body, route_record, confirm_receipt, record_external_receipt,
}
use udm_doctrack.Tracking.External.Work.{
  remark_body, external_work_body, complete_body, reopen_body, annotate_body, add_remark,
  record_external_work, complete_record, reopen_record, annotate_record,
}
use udm_doctrack.Tracking.External.Correct.{correct_body, correct_step}
use udm_doctrack.Tracking.External.Run.{
  Call, route_call, confirm_call, receipt_call, remark_call, annotate_call, reopen_call, work_call,
  complete_call, correct_call, Turn, perform, capability_of,
}

-- The body that each service runs behind its decorators.
abbrev pub body_of : Turn → Call → User → Ledger → Outcome Ledger
body_of t (route_call q) = route_body t.env t.entries q
body_of t (confirm_call note) = receive_body t.env false none note
body_of t (receipt_call at note) = receive_body t.env true at note
body_of t (remark_call message) = remark_body t.env message
body_of t (annotate_call message) = annotate_body t.env message
body_of t (reopen_call note) = reopen_body t.env note
body_of t (work_call at message) = external_work_body t.env at message
body_of t (complete_call note at) = complete_body t.env note at
body_of t (correct_call step reason c) = correct_body t.env t.entries step reason c

pub perform-guarded :
    (t : Turn) (call : Call) (d : Ledger)
    → perform t call d
      ≡ guarded_mutation t.env (capability_of call) t.expected (body_of t call) t.user d
unfolding perform route_record confirm_receipt record_external_receipt add_remark annotate_record
    reopen_record record_external_work complete_record correct_step
perform-guarded t (route_call q) d = refl
perform-guarded t (confirm_call note) d = refl
perform-guarded t (receipt_call at note) d = refl
perform-guarded t (remark_call message) d = refl
perform-guarded t (annotate_call message) d = refl
perform-guarded t (reopen_call note) d = refl
perform-guarded t (work_call at message) d = refl
perform-guarded t (complete_call note at) d = refl
perform-guarded t (correct_call step reason c) d = refl

-- What has been established when a call returned: it ran its body for the current row of the
-- account, and left the next revision of what the body left.
pub record Authorised (t : Turn) (call : Call) (d d' : Ledger) : Type 0 where
  pub writer : User
  pub current : active_user t.env.dir.users t.user.pk ≡ some writer
  pub working : can_start_work writer ≡ true
  pub visible : visible_to t.env.dir d.doc writer ≡ true
  pub expected : is_revision t.expected d.doc.revision ≡ true
  pub actor : User
  pub same : actor.pk ≡ t.user.pk
  pub capable :
      capability_allowed t.env.dir none actor external_tracking (capability_of call) true ≡ true
  pub left : Ledger
  pub returned : body_of t call actor d ≡ success left
  pub next : d' ≡ next_revision left

pub perform-Authorised :
    (t : Turn) (call : Call) (d d' : Ledger)
    → perform t call d ≡ success d'
    → Authorised t call d d'
unfolding guarded_mutation mutation with_capability require_capability
perform-Authorised t call d d' h =
    >>=-returned (active_writer t.env.dir t.user) _ (sym (perform-guarded t call d) ∙ h)
      (λ writer first h1.
        >>=-returned (guard (visible_to t.env.dir d.doc writer) permission_denied) _ h1
          (λ _ seen h2.
            >>=-returned (guard (is_revision t.expected d.doc.revision) validation_error) _ h2
              (λ _ same h3.
                >>=-returned (with_capability t.env (capability_of call) (body_of t call) writer d)
                  _ h3
                  (λ left body e.
                    >>=-returned (active_writer t.env.dir writer) _ body (λ actor again h4.
                      >>=-returned
                        (guard
                          (capability_allowed t.env.dir none actor external_tracking
                            (capability_of call) true)
                          permission_denied)
                        _ h4
                        (λ _ allowed ran.
                          let row = active_writer-success t.env.dir t.user first in
                          let row' = active_writer-success t.env.dir writer again in
                          record {
                            writer = writer;
                            current = row.0;
                            working = row.1;
                            visible =
                                guard-success (visible_to t.env.dir d.doc writer) permission_denied
                                  seen;
                            expected =
                                guard-success (is_revision t.expected d.doc.revision)
                                  validation_error same;
                            actor = actor;
                            same =
                                (active_user-pk t.env.dir.users writer.pk actor row'.0).0
                                ∙ (active_user-pk t.env.dir.users t.user.pk writer row.0).0;
                            capable =
                                guard-success
                                  (capability_allowed t.env.dir none actor external_tracking
                                    (capability_of call) true)
                                  permission_denied allowed;
                            left = left;
                            returned = ran;
                            next = sym (success-injective e);
                          }))))))
