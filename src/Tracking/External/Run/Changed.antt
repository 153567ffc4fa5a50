-- ===== src/Tracking/External/Run/Changed.antt =====
-- apps/tracking/external_services.py: the step that `correct_step` writes, against the step it read.
use udm_doctrack.Base.{
  ℕ, Bool, true, false, Option, none, some, List, ◌≡◌, refl, sym, ap, subst, ◌⊎◌, inl, inr, leb,
  is_some, Text, success, >>=-returned, success-injective, not_returned, validation_error,
}
use udm_doctrack.Tracking.External.{
  ExternalOffice, Party, internal, external, is_external_party, same_party, ExternalStep, arrived,
}
use udm_doctrack.Tracking.External.Calls.{not_before, actual, active_entry}
use udm_doctrack.Tracking.External.Correct.{
  Changes, corrected_party, corrected_sending, corrected_receipt, corrected_text, change_step,
}
use udm_doctrack.Tracking.External.Run.Times.{actual-success}

-- What a correction leaves of a step, and what it makes true of the facts it changes.
pub record Changed (now : ℕ) (c : Changes) (s s' : ExternalStep) : Type 0 where
  pub numbered : s'.sequence ≡ s.sequence
  pub arrival : arrived s' ≡ arrived s
  pub sent_past : leb s'.sent_at now ≡ true
  pub received_past : not_before s'.received_at now ≡ true
  pub sender : (is_some c.from_external_office ≡ true) ⊎ (s'.sender ≡ s.sender)
  pub recipient : (is_some c.to_external_office ≡ true) ⊎ (s'.recipient ≡ s.recipient)
  pub inside : is_external_party s'.sender ≡ false → same_party s'.sender s'.recipient ≡ false

corrected_party-success :
    (entries : List ExternalOffice) (o : Option ℕ) (prior v : Party × Text)
    → corrected_party entries o prior ≡ success v
    → ((is_some o ≡ true) × (is_external_party v.0 ≡ true)) ⊎ (v.0 ≡ prior.0)
unfolding corrected_party
corrected_party-success entries none prior v h =
    inr (sym (ap (λ (x : Party × Text). x.0) (success-injective h)))
corrected_party-success entries (some pk) prior v h =
    >>=-returned (active_entry entries pk) _ h (λ e _ k.
      inl (
        refl,
        subst (λ (x : Party × Text). is_external_party x.0 ≡ true) (success-injective k) refl,
      ))

corrected_sending-success :
    (now : ℕ) (change : Option (Option ℕ)) (prior : ℕ) {t : ℕ}
    → corrected_sending now change prior ≡ success t
    → leb prior now ≡ true
    → leb t now ≡ true
unfolding corrected_sending
corrected_sending-success now none prior h past =
    subst (λ x. leb x now ≡ true) (success-injective h) past
corrected_sending-success now (some none) prior h past =
    elim (not_returned validation_error _ h) [ ]
corrected_sending-success now (some (some t)) prior h past = (actual-success now (some t) none h).0

corrected_receipt-success :
    (now : ℕ) (change : Option (Option ℕ)) (prior : Option ℕ) {t : Option ℕ}
    → corrected_receipt now change prior ≡ success t
    → not_before prior now ≡ true
    → (not_before t now ≡ true) × (is_some t ≡ is_some prior)
unfolding corrected_receipt
corrected_receipt-success now none prior h past =
    let same = success-injective h in
    (subst (λ x. not_before x now ≡ true) same past, sym (ap is_some same))
corrected_receipt-success now (some none) prior h past =
    elim (not_returned validation_error _ h) [ ]
corrected_receipt-success now (some (some t)) none h past =
    elim (not_returned validation_error _ h) [ ]
corrected_receipt-success now (some (some t)) (some prior) h past =
    >>=-returned (actual now (some t) none) _ h (λ time timed e.
      let same = success-injective e in
      (
        subst (λ x. not_before x now ≡ true) same (actual-success now (some t) none timed).0,
        sym (ap is_some same),
      ))

-- An internal sender is the step's own, and its recipient is its own or external.
inside-differs :
    (a b : Party) (from to : Bool) (p q : Party)
    → same_party a b ≡ false
    → ((from ≡ true) × (is_external_party p ≡ true)) ⊎ (p ≡ a)
    → ((to ≡ true) × (is_external_party q ≡ true)) ⊎ (q ≡ b)
    → is_external_party p ≡ false
    → same_party p q ≡ false
inside-differs a b from to (external e) q h l k i = cc
inside-differs a b from to (internal o) (external e) h l k i = refl
inside-differs a b from to (internal o) (internal n) h (inl f) k i = elim (absurd f.1) [ ]
  where
    absurd : false ≡ true → ⊥
    absurd x = cc
inside-differs a b from to (internal o) (internal n) h (inr e) (inl f) i = elim (absurd f.1) [ ]
  where
    absurd : false ≡ true → ⊥
    absurd x = cc
inside-differs a b from to (internal o) (internal n) h (inr e) (inr k) i =
    subst (λ x. same_party x (internal n) ≡ false) (sym e)
      (subst (λ x. same_party a x ≡ false) (sym k) h)

forget :
    (f : Bool) (x : Bool) {p q : Party} → ((f ≡ true) × (x ≡ true)) ⊎ (p ≡ q) → (f ≡ true) ⊎ (p ≡ q)
forget f x (inl h) = inl h.0
forget f x (inr h) = inr h

pub change_step-success :
    (now : ℕ) (entries : List ExternalOffice) (c : Changes) (s s' : ExternalStep)
    → change_step now entries c s ≡ success s'
    → leb s.sent_at now ≡ true
    → not_before s.received_at now ≡ true
    → same_party s.sender s.recipient ≡ false
    → Changed now c s s'
unfolding change_step
change_step-success now entries c s s' h sent received distinct =
    >>=-returned (corrected_party entries c.from_external_office (s.sender, s.from_name)) _ h
      (λ from from_eq h1.
        >>=-returned (corrected_party entries c.to_external_office (s.recipient, s.to_name)) _ h1
          (λ to to_eq h2.
            >>=-returned (corrected_sending now c.sent_at s.sent_at) _ h2 (λ time time_eq h3.
              >>=-returned (corrected_receipt now c.received_at s.received_at) _ h3 (λ at at_eq h4.
                >>=-returned (corrected_text 5000 c.instructions s.instructions) _ h4 (λ _ _ h5.
                  >>=-returned (corrected_text 2000 c.receipt_note s.receipt_note) _ h5 (λ _ _ e.
                    let new_from =
                      corrected_party-success entries c.from_external_office (s.sender, s.from_name)
                        from from_eq in
                    let new_to =
                      corrected_party-success entries c.to_external_office (s.recipient, s.to_name)
                        to to_eq in
                    let arrival =
                      corrected_receipt-success now c.received_at s.received_at at_eq received in
                    subst (Changed now c s) (success-injective e) (record {
                      numbered = refl;
                      arrival = arrival.1;
                      sent_past = corrected_sending-success now c.sent_at s.sent_at time_eq sent;
                      received_past = arrival.0;
                      sender =
                          forget (is_some c.from_external_office) (is_external_party from.0)
                            new_from;
                      recipient =
                          forget (is_some c.to_external_office) (is_external_party to.0) new_to;
                      inside =
                          inside-differs s.sender s.recipient (is_some c.from_external_office)
                            (is_some c.to_external_office) from.0 to.0 distinct new_from new_to;
                    })))))))
