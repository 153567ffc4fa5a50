-- ===== src/Tracking/External/Run/Received.antt =====
-- apps/tracking/external_services.py: the ledger after a receipt.
use udm_doctrack.Base.{
  ℕ, Bool, true, false, not, Option, none, some, List, [], ◌∷◌, ◌++◌, ◌≡◌, refl, ap, subst, leb,
  Text, text, success, guard, >>=-returned, success-injective, some-injective, not_returned,
  permission_denied, validation_error, Bool-cases, inl, inr,
}
use udm_doctrack.Accounts.{User}
use udm_doctrack.Tracking.Services.{Env}
use udm_doctrack.Tracking.External.{
  is_external_party, ExternalStep, ExternalRecord, arrived, current_step, latest_step,
  responsible_office, can_confirm_receipt, receipt,
}
use udm_doctrack.Tracking.External.Calls.{
  Ledger, require_manager, text_within, add_event, require_unfrozen,
}
use udm_doctrack.Tracking.External.Moves.{
  pending_step, receipt_time, receive_step, receive_doc, receive_body,
}
use udm_doctrack.Tracking.External.Run.Chain.{After, Fits, Chain, Held, Sound}
use udm_doctrack.Tracking.External.Run.Times.{actual-success, leb_refl, add_event-Sound}

-- The latest step, stamped at a past time that is not before its sending.
receive_doc-Sound :
    (now : ℕ) (u : User) (reported : Bool) (time : ℕ) (note : Text) (s : ExternalStep)
    (r : ExternalRecord)
    → current_step r ≡ some s
    → (leb time now ≡ true) × (leb s.sent_at time ≡ true)
    → Sound now r
    → Sound now (receive_doc now u reported time note s r)
unfolding receive_doc
receive_doc-Sound now u reported time note s r latest timed c = record {
  chain = stamped r.routing_steps latest c.chain;
  held = received_from r.routing_steps latest;
  pending = arrived_latest r.routing_steps;
  unsent = not_new r.routing_steps latest;
}
  where
    after_list : List ExternalStep → List ExternalStep
    after_list steps = elim steps [
      | [] ↦ []
      | _ ∷ rest ↦ receive_step now u reported time note s ∷ rest
    ]

    stamped :
        (steps : List ExternalStep)
        → latest_step steps ≡ some s
        → Chain now steps
        → Chain now (after_list steps)
    stamped [] e k = tt
    stamped (p ∷ ps) e k =
        let fits = subst (λ x. Fits now x ps) (some-injective e) k.0 in
        (
          record {
            numbered = fits.numbered;
            distinct = fits.distinct;
            sent_past = fits.sent_past;
            received_past = timed.0;
            in_order = timed.1;
            after = still ps fits.after;
          },
          k.1,
        )
      where
        still :
            (qs : List ExternalStep)
            → After s qs
            → After (receive_step now u reported time note s) qs
        still [] k = tt
        still (q ∷ qs) k = k

    received_from :
        (steps : List ExternalStep)
        → latest_step steps ≡ some s
        → Held s.recipient (after_list steps)
    received_from [] e = tt
    received_from (p ∷ ps) e = refl

    arrived_latest :
        (steps : List ExternalStep)
        → elim (after_list steps) [ [] ↦ false | x ∷ _ ↦ not (arrived x) ] ≡ false
    arrived_latest [] = refl
    arrived_latest (p ∷ ps) = refl

    not_new :
        (steps : List ExternalStep)
        → latest_step steps ≡ some s
        → elim (after_list steps) [ [] ↦ true | x ∷ _ ↦ false ] ≡ false
    not_new [] e = cc
    not_new (p ∷ ps) e = refl

receipt_time-success :
    (env : Env) (r : ExternalRecord) (u : User) (s : ExternalStep) (reported : Bool) (at : Option ℕ)
    {time : ℕ}
    → receipt_time env r u s reported at ≡ success time
    → leb s.sent_at env.now ≡ true
    → (leb time env.now ≡ true) × (leb s.sent_at time ≡ true)
unfolding receipt_time
receipt_time-success env r u s true at h past =
    >>=-returned (require_manager u (responsible_office r)) _ h (λ _ _ h1.
      >>=-returned (guard (is_external_party s.recipient) validation_error) _ h1
        (λ _ _ e. actual-success env.now at (some s.sent_at) e))
receipt_time-success env r u s false at h past =
    >>=-returned (guard (can_confirm_receipt env.dir r u) permission_denied) _ h (λ _ _ e. (
      subst (λ t. leb t env.now ≡ true) (success-injective e) (leb_refl env.now),
      subst (λ t. leb s.sent_at t ≡ true) (success-injective e) past,
    ))

pending_step-success :
    (o : Option ExternalStep) (s : ExternalStep) → pending_step o ≡ success s → o ≡ some s
pending_step-success none s h = elim (not_returned validation_error s h) [ ]
pending_step-success (some p) s h = elim (Bool-cases (arrived p)) [
  | inl there ↦ elim (not_returned validation_error s (rw there at h)) [ ]
  | inr under_way ↦ ap some (success-injective (rw under_way at h))
]

latest_past :
    (now : ℕ) (steps : List ExternalStep) (s : ExternalStep)
    → latest_step steps ≡ some s
    → Chain now steps
    → leb s.sent_at now ≡ true
latest_past now [] s e c = cc
latest_past now (p ∷ steps) s e c =
    subst (λ (x : ExternalStep). leb x.sent_at now ≡ true) (some-injective e) c.0.sent_past

pub receive_body-Sound :
    (env : Env) (reported : Bool) (at : Option ℕ) (note : Text) (u : User) (d d' : Ledger)
    → receive_body env reported at note u d ≡ success d'
    → Sound env.now d.doc
    → Sound env.now d'.doc
unfolding receive_body
receive_body-Sound env reported at note u d d' h c =
    >>=-returned (require_unfrozen d.doc) _ h (λ _ _ h1.
      >>=-returned (pending_step (current_step d.doc)) _ h1 (λ s found h2.
        >>=-returned (receipt_time env d.doc u s reported at) _ h2 (λ time timed h3.
          >>=-returned (text_within 2000 note) _ h3 (λ written _ h4.
            >>=-returned
              (add_event env u receipt (text "Receipt confirmed at " ++ s.to_name) [] (some time)
                none (record d { doc = receive_doc env.now u reported time written s d.doc }))
              _ h4
              (λ d1 entered e.
                let latest = pending_step-success (current_step d.doc) s found in
                subst (λ (x : Ledger). Sound env.now x.doc) (success-injective e)
                  (add_event-Sound env.now env u receipt (text "Receipt confirmed at " ++ s.to_name)
                    [] (some time) none
                    (record d { doc = receive_doc env.now u reported time written s d.doc }) d1
                    entered
                    (receive_doc-Sound env.now u reported time written s d.doc latest
                      (receipt_time-success env d.doc u s reported at timed
                        (latest_past env.now d.doc.routing_steps s latest c.chain))
                      c)))))))
