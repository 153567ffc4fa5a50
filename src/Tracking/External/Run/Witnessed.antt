-- ===== src/Tracking/External/Run/Witnessed.antt =====
-- apps/tracking/external_services.py: what `correct_step` cannot change.
use udm_doctrack.Base.{
  ℕ, suc, Bool, true, false, not, Option, none, some, List, [], ◌∷◌, ◌++◌, ◌≡◌, refl, sym, ◌∙◌, ap,
  subst, map, first_holds, ◌==◌, if◌then◌else◌, ◌⊎◌, is_empty, arith, Text, text, success, guard,
  guard-success, >>=-returned, success-injective, validation_error,
}
use udm_doctrack.Accounts.{User}
use udm_doctrack.Tracking.{is_filed}
use udm_doctrack.Tracking.Services.{Env}
use udm_doctrack.Tracking.External.{
  ExternalOffice, is_external_party, ExternalStep, ExternalActionRevision, ExternalRecord,
  responsible_office,
}
use udm_doctrack.Tracking.External.Calls.{
  Ledger, require_manager, text_within, add_event, enter_event, next_revision,
}
use udm_doctrack.Tracking.External.Correct.{
  Changes, step_numbered, correct_doc, found_step, check_correction, correct_body,
}
use udm_doctrack.Tracking.External.Run.{Turn, correct_call, perform}
use udm_doctrack.Tracking.External.Run.Guarded.{perform-Authorised}
use udm_doctrack.Tracking.External.Run.Kept.{
  Untouched, SameSending, SameReceipt, Written-sending, Written-receipt, check_correction-Written,
}

-- What a correction of a step has written, on behalf of an account: the step of that number is the
-- only one that is replaced, by one of the same number, and the correction's row names it.
pub record Amended (step by : ℕ) (number : ℕ) (r r' : ExternalRecord) : Type 0 where
  pub old : ExternalStep
  pub new : ExternalStep
  pub row : ExternalActionRevision
  pub found : step_numbered step r.routing_steps ≡ some old
  pub place : old.sequence ≡ step
  pub steps : r'.routing_steps ≡ map (λ s. if s.sequence == step then new else s) r.routing_steps
  pub untouched : Untouched old new
  pub sending : (is_external_party old.sender ≡ true) ⊎ SameSending old new
  pub receipt : (is_external_party old.recipient ≡ true) ⊎ SameReceipt old new
  pub revisions : r'.revisions ≡ r.revisions ++ row ∷ []
  pub noted :
      (row.step ≡ step) × (row.revision ≡ number) × (row.actor ≡ by) × (is_empty row.reason ≡ false)
  pub status : r'.status ≡ r.status

negated : (b : Bool) → not b ≡ true → b ≡ false
negated b h = ground arith

looked_up : (o : Option ExternalStep) (s : ExternalStep) → found_step o ≡ success s → o ≡ some s
looked_up none s e = cc
looked_up (some x) s e = ap some (success-injective e)

-- The step that is found has the number that was looked for.
step_numbered-sequence :
    (n : ℕ) (steps : List ExternalStep) (s : ExternalStep)
    → step_numbered n steps ≡ some s
    → s.sequence ≡ n
step_numbered-sequence n steps s e = same (first_holds (λ x. x.sequence == n) steps s e)
  where
    same : (s.sequence == n) ≡ true → s.sequence ≡ n
    same h = ground arith

correct_body-Amended :
    (env : Env) (entries : List ExternalOffice) (step : ℕ) (reason : Text) (c : Changes) (u : User)
    (d d' : Ledger)
    → correct_body env entries step reason c u d ≡ success d'
    → (d'.doc.revision ≡ d.doc.revision) × Amended step u.pk (suc d.doc.revision) d.doc d'.doc
unfolding correct_body correct_doc add_event enter_event
correct_body-Amended env entries step reason c u d d' h =
    >>=-returned (require_manager u (responsible_office d.doc)) _ h (λ _ _ h1.
      >>=-returned (guard (not (is_filed d.doc.status)) validation_error) _ h1 (λ _ _ h2.
        >>=-returned (text_within 2000 reason) _ h2 (λ why _ h3.
          >>=-returned (guard (not (is_empty why)) validation_error) _ h3 (λ _ given h4.
            >>=-returned (found_step (step_numbered step d.doc.routing_steps)) _ h4 (λ s found h5.
              >>=-returned (check_correction env entries c s d.doc) _ h5 (λ s' checked h6.
                >>=-returned (text_within 255 (text "External action corrected")) _ h6 (λ short _ e.
                  let w = check_correction-Written env entries c s s' d.doc checked in
                  let at = looked_up (step_numbered step d.doc.routing_steps) s found in
                  let place = step_numbered-sequence step d.doc.routing_steps s at in
                  let moved = w.1.untouched.0 ∙ place in
                  subst
                    (λ (x : Ledger).
                      (x.doc.revision ≡ d.doc.revision)
                      × Amended step u.pk (suc d.doc.revision) d.doc x.doc)
                    (success-injective e)
                    (
                      refl,
                      record {
                        old = s;
                        new = s';
                        row = record {
                          step = s'.sequence;
                          revision = suc d.doc.revision;
                          reason = why;
                          actor = u.pk;
                        };
                        found = at;
                        place = place;
                        steps =
                            ap
                              (λ n.
                                map (λ x. if x.sequence == n then s' else x) d.doc.routing_steps)
                              moved;
                        untouched = w.1.untouched;
                        sending = Written-sending env.now entries c s s' w.1 w.0;
                        receipt = Written-receipt env.now entries c s s' w.1 w.0;
                        revisions = refl;
                        noted = (
                          moved,
                          refl,
                          refl,
                          negated (is_empty why)
                              (guard-success (not (is_empty why)) validation_error given),
                        );
                        status = refl;
                      },
                    ))))))))

-- A correction changes only what was reported from outside: when `correct_step` returned, the steps
-- of the number that it was asked for are the only ones replaced, by a step of that number with the
-- action, the deadline and the recording accounts of the first of them, with its sender, sending
-- time and instructions kept unless the sender is external, and its recipient, receipt and note kept
-- unless the recipient is external; the status is the same, and one row is added to the corrections,
-- with that number, the record's new revision, the calling account and a reason.
pub correct_step-Amended :
    (t : Turn) (step : ℕ) (reason : Text) (c : Changes) (d d' : Ledger)
    → perform t (correct_call step reason c) d ≡ success d'
    → Amended step t.user.pk d'.doc.revision d.doc d'.doc
correct_step-Amended t step reason c d d' h =
    let done = perform-Authorised t (correct_call step reason c) d d' h in
    let left =
      correct_body-Amended t.env t.entries step reason c done.actor d done.left done.returned in
    subst (λ (x : Ledger). Amended step t.user.pk x.doc.revision d.doc x.doc) (sym done.next)
      (subst (λ k. Amended step k (suc done.left.doc.revision) d.doc (next_revision done.left).doc)
        done.same
        (subst (λ n. Amended step done.actor.pk (suc n) d.doc (next_revision done.left).doc)
          (sym left.0)
          (record {
            old = left.1.old;
            new = left.1.new;
            row = left.1.row;
            found = left.1.found;
            place = left.1.place;
            steps = left.1.steps;
            untouched = left.1.untouched;
            sending = left.1.sending;
            receipt = left.1.receipt;
            revisions = left.1.revisions;
            noted = left.1.noted;
            status = left.1.status;
          })))
