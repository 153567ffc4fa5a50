-- ===== src/Tracking/External/Run/Accepted.antt =====
-- apps/tracking/external_services.py: the ledger with a corrected step in place.
use udm_doctrack.Base.{
  ℕ, ◌≤◌, Bool, true, false, not, ◌&&◌, ◌||◌, Option, none, some, List, [], ◌∷◌, ◌≡◌, refl, sym,
  ◌∙◌, ap, subst, ◌⊎◌, inl, inr, some-injective, ltb, if◌then◌else◌, is_some, is_none, is_key,
  arith, Text,
}
use udm_doctrack.Accounts.{User}
use udm_doctrack.Tracking.External.{
  Party, is_external_party, same_party, ExternalStep, ExternalRecord, arrived, latest_step,
}
use udm_doctrack.Tracking.External.Calls.{sequence_of}
use udm_doctrack.Tracking.External.Correct.{
  Changes, has_endpoint, endpoint_open, step_before, step_after, received_after, sent_after,
  chronology, replace_step, step_numbered, correct_doc,
}
use udm_doctrack.Tracking.External.Run.Chain.{Chain, Held, Sound}
use udm_doctrack.Tracking.External.Run.Changed.{Changed}
use udm_doctrack.Tracking.External.Run.Replaced.{Whole, head-replaced, Chain-replaced}
use udm_doctrack.Tracking.External.Run.Latest.{
  replace_step-latest, Held-latest, Held-some, Held-holder, transit-latest, replace_step-transit,
  holder_after-same,
}

-- The facts of an accepted correction.
pub record Accepted (now : ℕ) (c : Changes) (r : ExternalRecord) (s s' : ExternalStep)
    : Type 0 where
  pub found : step_numbered s.sequence r.routing_steps ≡ some s
  pub changed : Changed now c s s'
  pub open_ : (not (has_endpoint c) || endpoint_open c r s) ≡ true
  pub ordered :
      chronology
        (step_before s.sequence r.routing_steps)
        (step_after s.sequence none r.routing_steps)
        s'
      ≡ true
  pub outside : not (is_external_party s'.sender && same_party s'.sender s'.recipient) ≡ true

conj : (a b : Bool) → (a && b) ≡ true → (a ≡ true) × (b ≡ true)
conj a b h = ground arith

Accepted-Whole :
    (now : ℕ) (c : Changes) (r : ExternalRecord) (s s' : ExternalStep)
    → Accepted now c r s s'
    → Whole now s s'
unfolding chronology
Accepted-Whole now c r s s' k = record {
  numbered = k.changed.numbered;
  arrival = k.changed.arrival;
  sent_past = k.changed.sent_past;
  received_past = k.changed.received_past;
  in_order = (conj (received_after s') _ k.ordered).0;
  distinct =
      apart (is_external_party s'.sender) (same_party s'.sender s'.recipient) k.outside
        k.changed.inside;
}
  where
    apart : (a b : Bool) → not (a && b) ≡ true → (a ≡ false → b ≡ false) → b ≡ false
    apart true b h l = ground arith
    apart false b h l = l refl

-- With no endpoint among the changes, the parties stay.
endpoints-same :
    (c : Changes) (from to : Bool) {p q a b : Party}
    → (from || to) ≡ false
    → ((from ≡ true) ⊎ (p ≡ a))
    → ((to ≡ true) ⊎ (q ≡ b))
    → (p ≡ a) × (q ≡ b)
endpoints-same c false false h (inr e) (inr k) = (e, k)
endpoints-same c false false h (inl e) k = cc
endpoints-same c false false h (inr e) (inl k) = cc
endpoints-same c true to h e k = cc
endpoints-same c false true h e k = cc

-- The custodian column after a correction.
abbrev holder_of : Bool → ExternalStep → Party → Party
holder_of from s' holder = if from then s'.sender else holder

apart-endpoints :
    (now : ℕ) (c : Changes) (u : User) (why : Text) (r : ExternalRecord) (s s' : ExternalStep)
    → Accepted now c r s s'
    → has_endpoint c ≡ false
    → Sound now r
    → Chain now (replace_step s' r.routing_steps)
      × Held
          (holder_of (is_some c.from_external_office) s' r.custodian)
          (replace_step s' r.routing_steps)
unfolding chronology
apart-endpoints now c u why r s s' k none_ sound =
    let same = endpoints-same c _ _ none_ k.changed.sender k.changed.recipient in
    let near = conj (received_after s') _ k.ordered in
    let around = conj (sent_after (step_before s.sequence r.routing_steps) s') _ near.1 in
    let whole = Accepted-Whole now c r s s' k in
    (
      (Chain-replaced now s s' none r.routing_steps sound.chain tt k.found whole same.0 same.1
          around.0 around.1).0,
      subst (λ h. Held h (replace_step s' r.routing_steps)) (sym (kept _ _ none_))
          (elim (replace_step-latest s s' r.routing_steps k.found k.changed.numbered) [
            | inl e ↦
                Held-latest r.custodian (replace_step s' r.routing_steps) r.routing_steps e
                  sound.held
            | inr e ↦ Held-some r.custodian s' (replace_step s' r.routing_steps) e.1 (
                Held-holder r.custodian s r.routing_steps e.0 sound.held
                ∙ sym (holder_after-same s s' k.changed.arrival same.0 same.1))
          ]),
    )
  where
    kept : (from to : Bool) → (from || to) ≡ false → holder_of from s' r.custodian ≡ r.custodian
    kept true to h = cc
    kept false to h = refl

-- The step of the highest sequence, replaced.
latest-replaced :
    (now : ℕ) (s s' : ExternalStep) (steps : List ExternalStep)
    → Chain now steps
    → step_numbered s.sequence steps ≡ some s
    → is_key (sequence_of (latest_step steps)) s.sequence ≡ true
    → Whole now s s'
    → sent_after (step_before s.sequence steps) s' ≡ true
    → (s.sequence ≤ 1) ⊎ (s'.sender ≡ s.sender)
    → Chain now (replace_step s' steps)
      × ((latest_step steps ≡ some s) × (latest_step (replace_step s' steps) ≡ some s'))
latest-replaced now s s' [] c found key w previous from = cc
latest-replaced now s s' (p ∷ steps) c found key w previous from =
    at_top p (some-injective (rw key at found)) c previous
  where
    at_top :
        (x : ExternalStep)
        → x ≡ s
        → Chain now (x ∷ steps)
        → sent_after (step_before s.sequence (x ∷ steps)) s' ≡ true
        → Chain now (replace_step s' (x ∷ steps))
          × ((some x ≡ some s) × (latest_step (replace_step s' (x ∷ steps)) ≡ some s'))
    at_top x e k l =
        let done =
          head-replaced now s s' steps (subst (λ y. Chain now (y ∷ steps)) e k) w
            (subst (λ y. sent_after (step_before s.sequence (y ∷ steps)) s' ≡ true) e l) from in
        subst
          (λ y.
            Chain now (replace_step s' (y ∷ steps))
            × ((some y ≡ some s) × (latest_step (replace_step s' (y ∷ steps)) ≡ some s')))
          (sym e)
          (
            subst (Chain now) (sym done.0) (done.1, (subst (λ y. Chain now (y ∷ steps)) e k).1),
            (refl, ap latest_step done.0),
          )

open-endpoints :
    (now : ℕ) (c : Changes) (r : ExternalRecord) (s s' : ExternalStep)
    → Accepted now c r s s'
    → endpoint_open c r s ≡ true
    → Sound now r
    → Chain now (replace_step s' r.routing_steps)
      × Held
          (holder_of (is_some c.from_external_office) s' r.custodian)
          (replace_step s' r.routing_steps)
unfolding chronology endpoint_open
open-endpoints now c r s s' k may sound =
    let near = conj (received_after s') _ k.ordered in
    let around = conj (sent_after (step_before s.sequence r.routing_steps) s') _ near.1 in
    let asked = conj (not (is_some c.from_external_office && ltb 1 s.sequence)) _ may in
    let latest = conj (is_none s.received_at) _ asked.1 in
    let done =
      latest-replaced now s s' r.routing_steps sound.chain k.found latest.1
        (Accepted-Whole now c r s s' k) around.0
        (origin (is_some c.from_external_office) s.sequence asked.0 k.changed.sender) in
    (
      done.0,
      Held-some _ s' (replace_step s' r.routing_steps) done.1.1 (
          sender_holds (is_some c.from_external_office) k.changed.sender (
            Held-holder r.custodian s r.routing_steps done.1.0 sound.held
            ∙ chosen (arrived s) _ _ (unreceived s.received_at latest.0))
          ∙ sym (
              chosen (arrived s') s'.recipient s'.sender
                (k.changed.arrival ∙ unreceived s.received_at latest.0))),
    )
  where
    origin :
        (from : Bool) (n : ℕ)
        → not (from && ltb 1 n) ≡ true
        → (from ≡ true) ⊎ (s'.sender ≡ s.sender)
        → (n ≤ 1) ⊎ (s'.sender ≡ s.sender)
    origin true n h e = inl (ground arith)
    origin false n h (inl e) = cc
    origin false n h (inr e) = inr e

    sender_holds :
        (from : Bool)
        → (from ≡ true) ⊎ (s'.sender ≡ s.sender)
        → r.custodian ≡ s.sender
        → holder_of from s' r.custodian ≡ s'.sender
    sender_holds true e h = refl
    sender_holds false (inl e) h = cc
    sender_holds false (inr e) h = h ∙ sym e

    chosen : (t : Bool) (a b : Party) → t ≡ false → (if t then a else b) ≡ b
    chosen true a b h = cc
    chosen false a b h = refl

    unreceived : (t : Option ℕ) → is_none t ≡ true → is_some t ≡ false
    unreceived none h = refl
    unreceived (some t) h = cc

pub correct_doc-Sound :
    (now : ℕ) (c : Changes) (u : User) (why : Text) (r : ExternalRecord) (s s' : ExternalStep)
    → Accepted now c r s s'
    → Sound now r
    → Sound now (correct_doc c s' u why r)
unfolding correct_doc
correct_doc-Sound now c u why r s s' k sound =
    let both = by_endpoint (has_endpoint c) refl in
    record {
      chain = both.0;
      held = both.1;
      pending =
          transit-latest (replace_step s' r.routing_steps)
          ∙ (replace_step-transit s s' r.routing_steps k.found k.changed.numbered k.changed.arrival
              ∙ (sym (transit-latest r.routing_steps) ∙ sound.pending));
      unsent = emptiness r.routing_steps ∙ sound.unsent;
    }
  where
    by_endpoint :
        (b : Bool)
        → has_endpoint c ≡ b
        → Chain now (replace_step s' r.routing_steps)
          × Held
              (holder_of (is_some c.from_external_office) s' r.custodian)
              (replace_step s' r.routing_steps)
    by_endpoint false e = apart-endpoints now c u why r s s' k e sound
    by_endpoint true e =
        open-endpoints now c r s s' k (asked (has_endpoint c) (endpoint_open c r s) e k.open_) sound
      where
        asked : (a b : Bool) → a ≡ true → (not a || b) ≡ true → b ≡ true
        asked a b h l = ground arith

    emptiness :
        (steps : List ExternalStep)
        → elim (replace_step s' steps) [ [] ↦ true | x ∷ _ ↦ false ]
          ≡ elim steps [ [] ↦ true | x ∷ _ ↦ false ]
    emptiness [] = refl
    emptiness (x ∷ steps) = refl
