-- ===== src/Tracking/External/Run/Kept.antt =====
-- apps/tracking/external_services.py: the fields of a step that `correct_step` computes anew, and
-- those that it keeps.
use udm_doctrack.Base.{
  ℕ, Bool, true, false, not, ◌&&◌, ◌||◌, Option, none, some, List, ◌≡◌, refl, sym, ap, subst, ◌⊎◌,
  inl, inr, is_none, Bool-cases, arith, Text, success, guard, guard-success, >>=-returned,
  success-injective, validation_error,
}
use udm_doctrack.Tracking.Services.{Env}
use udm_doctrack.Tracking.External.{
  ExternalOffice, Party, is_external_party, same_party, ExternalStep, ExternalRecord,
}
use udm_doctrack.Tracking.External.Correct.{
  Changes, has_endpoint, no_change, only_allowed, endpoint_open, corrected_party, corrected_sending,
  corrected_receipt, corrected_text, change_step, step_before, step_after, chronology, fits_facts,
  clean_step, check_correction,
}

-- What no correction reaches: the step's place, its action, its deadline and who recorded it.
abbrev pub Untouched : ExternalStep → ExternalStep → Type 0
Untouched s s' =
    (s'.sequence ≡ s.sequence)
    × (s'.action ≡ s.action)
    × (s'.due_at ≡ s.due_at)
    × (s'.sent_by ≡ s.sent_by)
    × (s'.sent_recorded_by ≡ s.sent_recorded_by)
    × (s'.received_by ≡ s.received_by)
    × (s'.receipt_recorded_by ≡ s.receipt_recorded_by)
    × (s'.received_recorded_at ≡ s.received_recorded_at)

-- How the corrected fields are computed from the changes.
pub record Written (now : ℕ) (entries : List ExternalOffice) (c : Changes) (s s' : ExternalStep)
    : Type 0 where
  pub sender :
      corrected_party entries c.from_external_office (s.sender, s.from_name)
      ≡ success (s'.sender, s'.from_name)
  pub recipient :
      corrected_party entries c.to_external_office (s.recipient, s.to_name)
      ≡ success (s'.recipient, s'.to_name)
  pub sent_at : corrected_sending now c.sent_at s.sent_at ≡ success s'.sent_at
  pub received_at : corrected_receipt now c.received_at s.received_at ≡ success s'.received_at
  pub instructions : corrected_text 5000 c.instructions s.instructions ≡ success s'.instructions
  pub receipt_note : corrected_text 2000 c.receipt_note s.receipt_note ≡ success s'.receipt_note
  pub untouched : Untouched s s'

change_step-Written :
    (now : ℕ) (entries : List ExternalOffice) (c : Changes) (s s' : ExternalStep)
    → change_step now entries c s ≡ success s'
    → Written now entries c s s'
unfolding change_step
change_step-Written now entries c s s' h =
    >>=-returned (corrected_party entries c.from_external_office (s.sender, s.from_name)) _ h
      (λ from e1 h1.
        >>=-returned (corrected_party entries c.to_external_office (s.recipient, s.to_name)) _ h1
          (λ to e2 h2. >>=-returned (corrected_sending now c.sent_at s.sent_at) _ h2 (λ time e3 h3.
            >>=-returned (corrected_receipt now c.received_at s.received_at) _ h3 (λ at e4 h4.
              >>=-returned (corrected_text 5000 c.instructions s.instructions) _ h4 (λ words e5 h5.
                >>=-returned (corrected_text 2000 c.receipt_note s.receipt_note) _ h5 (λ note e6 e.
                  subst (Written now entries c s) (success-injective e) (record {
                    sender = e1;
                    recipient = e2;
                    sent_at = e3;
                    received_at = e4;
                    instructions = e5;
                    receipt_note = e6;
                    untouched = (refl, refl, refl, refl, refl, refl, refl, refl);
                  })))))))

-- What DocTrack itself has recorded of a step's sending, and of its receipt.
abbrev pub SameSending : ExternalStep → ExternalStep → Type 0
SameSending s s' =
    (s'.sender ≡ s.sender) × (s'.sent_at ≡ s.sent_at) × (s'.instructions ≡ s.instructions)

abbrev pub SameReceipt : ExternalStep → ExternalStep → Type 0
SameReceipt s s' =
    (s'.recipient ≡ s.recipient)
    × (s'.received_at ≡ s.received_at)
    × (s'.receipt_note ≡ s.receipt_note)

party-kept :
    (entries : List ExternalOffice) (o : Option ℕ) (p q : Party × Text)
    → is_none o ≡ true
    → corrected_party entries o p ≡ success q
    → q.0 ≡ p.0
unfolding corrected_party
party-kept entries none p q n h = sym (ap (λ (x : Party × Text). x.0) (success-injective h))
party-kept entries (some pk) p q n h = cc

sending-kept :
    (now : ℕ) (o : Option (Option ℕ)) (p t : ℕ)
    → is_none o ≡ true
    → corrected_sending now o p ≡ success t
    → t ≡ p
unfolding corrected_sending
sending-kept now none p t n h = sym (success-injective h)
sending-kept now (some o) p t n h = cc

receipt-kept :
    (now : ℕ) (o : Option (Option ℕ)) (p t : Option ℕ)
    → is_none o ≡ true
    → corrected_receipt now o p ≡ success t
    → t ≡ p
unfolding corrected_receipt
receipt-kept now none p t n h = sym (success-injective h)
receipt-kept now (some o) p t n h = cc

text-kept :
    (limit : ℕ) (o : Option Text) (p t : Text)
    → is_none o ≡ true
    → corrected_text limit o p ≡ success t
    → t ≡ p
unfolding corrected_text
text-kept limit none p t n h = sym (success-injective h)
text-kept limit (some o) p t n h = cc

pub conj : (a b : Bool) → (a && b) ≡ true → (a ≡ true) × (b ≡ true)
conj a b h = ground arith

otherwise : (a b : Bool) → (a || b) ≡ true → a ≡ false → b ≡ true
otherwise a b h e = ground arith

pub Written-sending :
    (now : ℕ) (entries : List ExternalOffice) (c : Changes) (s s' : ExternalStep)
    → Written now entries c s s'
    → only_allowed c s ≡ true
    → (is_external_party s.sender ≡ true) ⊎ SameSending s s'
unfolding only_allowed
Written-sending now entries c s s' w h = elim (Bool-cases (is_external_party s.sender)) [
  | inl outside ↦ inl outside
  | inr inside ↦
      let allowed = conj (not c.unsupported) _ h in
      let own = otherwise (is_external_party s.sender) _ (conj _ _ allowed.1).0 inside in
      let rest = conj (is_none c.sent_at) _ own in
      let last = conj (is_none c.instructions) _ rest.1 in
      inr (
        party-kept entries c.from_external_office (s.sender, s.from_name) (s'.sender, s'.from_name)
            last.1 w.sender,
        sending-kept now c.sent_at s.sent_at s'.sent_at rest.0 w.sent_at,
        text-kept 5000 c.instructions s.instructions s'.instructions last.0 w.instructions,
      )
]

pub Written-receipt :
    (now : ℕ) (entries : List ExternalOffice) (c : Changes) (s s' : ExternalStep)
    → Written now entries c s s'
    → only_allowed c s ≡ true
    → (is_external_party s.recipient ≡ true) ⊎ SameReceipt s s'
unfolding only_allowed
Written-receipt now entries c s s' w h = elim (Bool-cases (is_external_party s.recipient)) [
  | inl outside ↦ inl outside
  | inr inside ↦
      let allowed = conj (not c.unsupported) _ h in
      let own = otherwise (is_external_party s.recipient) _ (conj _ _ allowed.1).1 inside in
      let rest = conj (is_none c.received_at) _ own in
      let last = conj (is_none c.receipt_note) _ rest.1 in
      inr (
        party-kept entries c.to_external_office (s.recipient, s.to_name) (s'.recipient, s'.to_name)
            last.1 w.recipient,
        receipt-kept now c.received_at s.received_at s'.received_at rest.0 w.received_at,
        text-kept 2000 c.receipt_note s.receipt_note s'.receipt_note last.0 w.receipt_note,
      )
]

pub check_correction-Written :
    (env : Env) (entries : List ExternalOffice) (c : Changes) (s s' : ExternalStep)
    (r : ExternalRecord)
    → check_correction env entries c s r ≡ success s'
    → (only_allowed c s ≡ true) × Written env.now entries c s s'
unfolding check_correction
check_correction-Written env entries c s s' r h =
    >>=-returned (guard (not (has_endpoint c) || endpoint_open c r s) validation_error) _ h
      (λ _ _ h1.
        >>=-returned (guard (not (no_change c) && only_allowed c s) validation_error) _ h1
          (λ _ allowed h2. >>=-returned (change_step env.now entries c s) _ h2 (λ t changed h3.
            >>=-returned
              (guard
                (chronology (step_before s.sequence r.routing_steps)
                  (step_after s.sequence none r.routing_steps) t)
                validation_error)
              _ h3
              (λ _ _ h4.
                >>=-returned
                  (guard (not (is_external_party t.sender && same_party t.sender t.recipient))
                    validation_error)
                  _ h4
                  (λ _ _ h5.
                    >>=-returned
                      (guard (fits_facts c (step_before s.sequence r.routing_steps) r t)
                        validation_error)
                      _ h5
                      (λ _ _ h6. >>=-returned (clean_step t r.routing_steps) _ h6 (λ _ _ e. (
                        (conj (not (no_change c)) (only_allowed c s) (
                            guard-success (not (no_change c) && only_allowed c s) validation_error
                              allowed)).1,
                        subst (Written env.now entries c s) (success-injective e)
                            (change_step-Written env.now entries c s t changed),
                      ))))))))
