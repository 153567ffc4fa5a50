-- ===== src/Tracking/External/Run/Corrected.antt =====
-- apps/tracking/external_services.py: the ledger after `correct_step`.
use udm_doctrack.Base.{
  ℕ, Bool, true, not, ◌&&◌, ◌||◌, Option, none, some, List, [], ◌∷◌, ◌≡◌, sym, ap, subst, inl, inr,
  first_holds, some-injective, ◌==◌, is_empty, arith, Bool-cases, Text, text, success, guard,
  guard-success, >>=-returned, success-injective, not_returned, validation_error, does_not_exist,
}
use udm_doctrack.Accounts.{User}
use udm_doctrack.Tracking.{is_filed}
use udm_doctrack.Tracking.Services.{Env}
use udm_doctrack.Tracking.External.{
  ExternalOffice, is_external_party, same_party, ExternalStep, corrected, ExternalRecord,
  responsible_office,
}
use udm_doctrack.Tracking.External.Calls.{Ledger, require_manager, text_within}
use udm_doctrack.Tracking.External.Correct.{
  Changes, has_endpoint, no_change, only_allowed, endpoint_open, change_step, step_before,
  step_after, chronology, fits_facts, clean_step, step_numbered, correct_doc, found_step,
  check_correction, correct_body,
}
use udm_doctrack.Tracking.External.Run.Chain.{Fits, Chain, Sound}
use udm_doctrack.Tracking.External.Run.Times.{add_event-Sound}
use udm_doctrack.Tracking.External.Run.Changed.{change_step-success}
use udm_doctrack.Tracking.External.Run.Accepted.{Accepted, correct_doc-Sound}

-- A step of the chain satisfies what the chain says of each.
found-Fits :
    (now n : ℕ) (steps : List ExternalStep) (s : ExternalStep)
    → Chain now steps
    → step_numbered n steps ≡ some s
    → (before : List ExternalStep) × Fits now s before
found-Fits now n [] s c h = cc
found-Fits now n (p ∷ steps) s c h = elim (Bool-cases (p.sequence == n)) [
  | inl here ↦ (steps, subst (λ x. Fits now x steps) (some-injective (rw here at h)) c.0)
  | inr later ↦ found-Fits now n steps s c.1 (rw later at h)
]

found_step-success :
    (n : ℕ) (steps : List ExternalStep) (s : ExternalStep)
    → found_step (step_numbered n steps) ≡ success s
    → step_numbered s.sequence steps ≡ some s
found_step-success n steps s h =
    let found = looked_up (step_numbered n steps) h in
    subst (λ k. step_numbered k steps ≡ some s)
      (sym (same s.sequence n (first_holds _ steps s found))) found
  where
    looked_up : (o : Option ExternalStep) → found_step o ≡ success s → o ≡ some s
    looked_up none e = elim (not_returned does_not_exist s e) [ ]
    looked_up (some x) e = ap some (success-injective e)

    same : (a b : ℕ) → (a == b) ≡ true → a ≡ b
    same a b e = ground arith

check_correction-success :
    (env : Env) (entries : List ExternalOffice) (c : Changes) (s s' : ExternalStep)
    (r : ExternalRecord)
    → check_correction env entries c s r ≡ success s'
    → step_numbered s.sequence r.routing_steps ≡ some s
    → Chain env.now r.routing_steps
    → Accepted env.now c r s s'
unfolding check_correction
check_correction-success env entries c s s' r h found chain =
    >>=-returned (guard (not (has_endpoint c) || endpoint_open c r s) validation_error) _ h
      (λ _ may h1.
        >>=-returned (guard (not (no_change c) && only_allowed c s) validation_error) _ h1
          (λ _ _ h2. >>=-returned (change_step env.now entries c s) _ h2 (λ t changed h3.
            >>=-returned (guard (ordered t) validation_error) _ h3 (λ _ fits h4.
              >>=-returned (guard (outside t) validation_error) _ h4 (λ _ other h5.
                >>=-returned
                  (guard (fits_facts c (step_before s.sequence r.routing_steps) r t)
                    validation_error)
                  _ h5
                  (λ _ _ h6. >>=-returned (clean_step t r.routing_steps) _ h6 (λ _ _ e.
                    let own = (found-Fits env.now s.sequence r.routing_steps s chain found).1 in
                    subst (Accepted env.now c r s) (success-injective e) (record {
                      found = found;
                      changed =
                          change_step-success env.now entries c s t changed own.sent_past
                            own.received_past own.distinct;
                      open_ =
                          guard-success (not (has_endpoint c) || endpoint_open c r s)
                            validation_error may;
                      ordered = guard-success (ordered t) validation_error fits;
                      outside = guard-success (outside t) validation_error other;
                    }))))))))
  where
    ordered : ExternalStep → Bool
    ordered t =
        chronology (step_before s.sequence r.routing_steps)
          (step_after s.sequence none r.routing_steps) t

    outside : ExternalStep → Bool
    outside t = not (is_external_party t.sender && same_party t.sender t.recipient)

pub correct_body-Sound :
    (env : Env) (entries : List ExternalOffice) (step : ℕ) (reason : Text) (c : Changes) (u : User)
    (d d' : Ledger)
    → correct_body env entries step reason c u d ≡ success d'
    → Sound env.now d.doc
    → Sound env.now d'.doc
unfolding correct_body
correct_body-Sound env entries step reason c u d d' h sound =
    >>=-returned (require_manager u (responsible_office d.doc)) _ h (λ _ _ h1.
      >>=-returned (guard (not (is_filed d.doc.status)) validation_error) _ h1 (λ _ _ h2.
        >>=-returned (text_within 2000 reason) _ h2 (λ why _ h3.
          >>=-returned (guard (not (is_empty why)) validation_error) _ h3 (λ _ _ h4.
            >>=-returned (found_step (step_numbered step d.doc.routing_steps)) _ h4 (λ s found h5.
              >>=-returned (check_correction env entries c s d.doc) _ h5 (λ s' checked h6.
                add_event-Sound env.now env u corrected (text "External action corrected") why none
                  (some s.sequence) (record d { doc = correct_doc c s' u why d.doc }) d' h6
                  (correct_doc-Sound env.now c u why d.doc s s'
                    (check_correction-success env entries c s s' d.doc checked
                      (found_step-success step d.doc.routing_steps s found) sound.chain)
                    sound)))))))
