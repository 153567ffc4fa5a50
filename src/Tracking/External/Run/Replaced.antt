-- ===== src/Tracking/External/Run/Replaced.antt =====
-- apps/tracking/external_services.py: one step of the custody chain replaced, between the steps
-- before and after it that `correct_step` looks up.
use udm_doctrack.Base.{
  ℕ, suc, ◌≤◌, ◌<◌, true, false, Option, none, some, List, [], ◌∷◌, ◌≡◌, refl, sym, ◌∙◌, ap, subst,
  ◌⊎◌, inl, inr, length, length-map, some-injective, leb, ltb, ◌==◌, if◌then◌else◌, arith,
  Bool-cases,
}
use udm_doctrack.Tracking.External.{same_party, ExternalStep, arrived, latest_step}
use udm_doctrack.Tracking.External.Calls.{not_before}
use udm_doctrack.Tracking.External.Correct.{
  step_before, step_after, received_after, sent_after, received_before, replace_step, step_numbered,
}
use udm_doctrack.Tracking.External.Run.Chain.{After, Fits, Chain}

eq_of : (a b : ℕ) → (a == b) ≡ true → a ≡ b
eq_of a b h = ground arith

-- The steps below are numbered below.
step_numbered-bound :
    (now n : ℕ) (steps : List ExternalStep) (s : ExternalStep)
    → Chain now steps
    → step_numbered n steps ≡ some s
    → n ≤ length steps
step_numbered-bound now n [] s c h = cc
step_numbered-bound now n (p ∷ steps) s c h = elim (Bool-cases (p.sequence == n)) [
  | inl here ↦ omega (arith, c.0.numbered, eq_of p.sequence n here)
  | inr later ↦ omega (arith, step_numbered-bound now n steps s c.1 (rw later at h))
]

step_before-latest :
    (now n : ℕ) (steps : List ExternalStep)
    → Chain now steps
    → length steps < n
    → step_before n steps ≡ latest_step steps
step_before-latest now n [] c h = refl
step_before-latest now n (p ∷ steps) c h = above p.sequence c.0.numbered
  where
    above :
        (k : ℕ)
        → k ≡ suc (length steps)
        → (if ltb k n then some p else step_before n steps) ≡ some p
    above k e = ground arith

step_after-above :
    (now n : ℕ) (above : Option ExternalStep) (steps : List ExternalStep)
    → Chain now steps
    → length steps < n
    → step_after n above steps ≡ above
step_after-above now n above [] c h = refl
step_after-above now n above (p ∷ steps) c h =
    ap (λ x. step_after n x steps) (below p.sequence c.0.numbered)
    ∙ step_after-above now n above steps c.1 (omega (arith, h))
  where
    below : (k : ℕ) → k ≡ suc (length steps) → (if ltb n k then some p else above) ≡ above
    below k e = ground arith

replace_step-same :
    (now : ℕ) (s' : ExternalStep) (steps : List ExternalStep)
    → Chain now steps
    → length steps < s'.sequence
    → replace_step s' steps ≡ steps
replace_step-same now s' [] c h = refl
replace_step-same now s' (p ∷ steps) c h =
    ap (λ x. x ∷ replace_step s' steps) (other p.sequence s'.sequence c.0.numbered h)
    ∙ ap (λ xs. p ∷ xs) (replace_step-same now s' steps c.1 (omega (arith, h)))
  where
    other :
        (k n : ℕ) → k ≡ suc (length steps) → suc (length steps) < n → (if k == n then s' else p) ≡ p
    other k n e l = ground arith

-- What holds of the replacing step by itself.
pub record Whole (now : ℕ) (s s' : ExternalStep) : Type 0 where
  pub numbered : s'.sequence ≡ s.sequence
  pub arrival : arrived s' ≡ arrived s
  pub sent_past : leb s'.sent_at now ≡ true
  pub received_past : not_before s'.received_at now ≡ true
  pub in_order : received_after s' ≡ true
  pub distinct : same_party s'.sender s'.recipient ≡ false

-- The latest step replaced; its sender may change when it is the only one.
pub head-replaced :
    (now : ℕ) (s s' : ExternalStep) (steps : List ExternalStep)
    → Chain now (s ∷ steps)
    → Whole now s s'
    → sent_after (step_before s.sequence (s ∷ steps)) s' ≡ true
    → (s.sequence ≤ 1) ⊎ (s'.sender ≡ s.sender)
    → replace_step s' (s ∷ steps) ≡ s' ∷ steps × Fits now s' steps
head-replaced now s s' steps c w previous from = (
  ap (λ x. x ∷ replace_step s' steps) (here s.sequence s'.sequence (sym w.numbered))
      ∙ ap (λ xs. s' ∷ xs)
          (replace_step-same now s' steps c.1 (omega (arith, w.numbered, c.0.numbered))),
  record {
    numbered = w.numbered ∙ c.0.numbered;
    distinct = w.distinct;
    sent_past = w.sent_past;
    received_past = w.received_past;
    in_order = w.in_order;
    after = joined steps from c.0.numbered c.0.after (
        subst (λ o. sent_after o s' ≡ true)
          (skipped s.sequence
            ∙ step_before-latest now s.sequence steps c.1 (omega (arith, c.0.numbered)))
          previous);
  },
)
  where
    here : (k n : ℕ) → k ≡ n → (if k == n then s' else s) ≡ s'
    here k n e = ground arith

    skipped : (k : ℕ) → (if ltb k k then some s else step_before k steps) ≡ step_before k steps
    skipped k = ground arith

    joined :
        (ps : List ExternalStep)
        → (s.sequence ≤ 1) ⊎ (s'.sender ≡ s.sender)
        → s.sequence ≡ suc (length ps)
        → After s ps
        → sent_after (latest_step ps) s' ≡ true
        → After s' ps
    joined [] f n a t = tt
    joined (p ∷ ps) (inl f) n a t = elim (impossible (length ps) f n) [ ]
      where
        impossible : (k : ℕ) → s.sequence ≤ 1 → s.sequence ≡ suc (suc k) → ⊥
        impossible k l e = omega (arith, l, e)
    joined (p ∷ ps) (inr f) n a t = (f ∙ a.0, (a.1.0, t))

-- The step above, if there is one, still follows.
abbrev pub Under : Option ExternalStep → List ExternalStep → Type 0
Under none steps = Unit {0}
Under (some f) steps = After f steps

-- The step replaced at the top of its part of the chain, its parties being the same.
top-replaced :
    (now : ℕ) (s s' : ExternalStep) (above : Option ExternalStep) (steps : List ExternalStep)
    → Chain now (s ∷ steps)
    → Under above (s ∷ steps)
    → Whole now s s'
    → s'.sender ≡ s.sender
    → s'.recipient ≡ s.recipient
    → sent_after (step_before s.sequence (s ∷ steps)) s' ≡ true
    → received_before (step_after s.sequence above (s ∷ steps)) s' ≡ true
    → Chain now (replace_step s' (s ∷ steps)) × Under above (replace_step s' (s ∷ steps))
top-replaced now s s' above steps c a w from to previous following =
    let done = head-replaced now s s' steps c w previous (inr from) in
    subst (λ xs. Chain now xs × Under above xs) (sym done.0)
      ((done.1, c.1), under above a (subst (λ o. received_before o s' ≡ true) skipped following))
  where
    under :
        (o : Option ExternalStep)
        → Under o (s ∷ steps)
        → received_before o s' ≡ true
        → Under o (s' ∷ steps)
    under none k t = tt
    under (some f) k t = (k.0 ∙ sym to, (w.arrival ∙ k.1.0, t))

    passed : (k : ℕ) → (if ltb k k then some s else above) ≡ above
    passed k = ground arith

    skipped : step_after s.sequence above (s ∷ steps) ≡ above
    skipped =
        ap (λ o. step_after s.sequence o steps) (passed s.sequence)
        ∙ step_after-above now s.sequence above steps c.1 (omega (arith, c.0.numbered))

-- The step above the replaced part stays.
kept-above :
    (now : ℕ) (p s' : ExternalStep) (above : Option ExternalStep) (steps : List ExternalStep)
    → Chain now (p ∷ steps)
    → Under above (p ∷ steps)
    → s'.sequence ≤ length steps
    → Chain now (replace_step s' steps) × After p (replace_step s' steps)
    → Chain now (replace_step s' (p ∷ steps)) × Under above (replace_step s' (p ∷ steps))
kept-above now p s' above steps c a low inner =
    subst (λ x. Chain now (x ∷ replace_step s' steps) × Under above (x ∷ replace_step s' steps))
      (sym (other p.sequence s'.sequence c.0.numbered low))
      (
        (
          record {
            numbered = c.0.numbered ∙ ap suc (sym (length-map _ steps));
            distinct = c.0.distinct;
            sent_past = c.0.sent_past;
            received_past = c.0.received_past;
            in_order = c.0.in_order;
            after = inner.1;
          },
          inner.0,
        ),
        still above a,
      )
  where
    other : (k n : ℕ) → k ≡ suc (length steps) → n ≤ length steps → (if k == n then s' else p) ≡ p
    other k n e l = ground arith

    still : (o : Option ExternalStep) → Under o (p ∷ steps) → Under o (p ∷ replace_step s' steps)
    still none k = tt
    still (some f) k = k

-- A step of the chain replaced, its parties being the same.
pub Chain-replaced :
    (now : ℕ) (s s' : ExternalStep) (above : Option ExternalStep) (steps : List ExternalStep)
    → Chain now steps
    → Under above steps
    → step_numbered s.sequence steps ≡ some s
    → Whole now s s'
    → s'.sender ≡ s.sender
    → s'.recipient ≡ s.recipient
    → sent_after (step_before s.sequence steps) s' ≡ true
    → received_before (step_after s.sequence above steps) s' ≡ true
    → Chain now (replace_step s' steps) × Under above (replace_step s' steps)
Chain-replaced now s s' above [] c a found w from to previous following = cc
Chain-replaced now s s' above (p ∷ steps) c a found w from to previous following =
    elim (Bool-cases (p.sequence == s.sequence)) [
      | inl here ↦
          let same : p ≡ s = some-injective (rw here at found) in
          at_top p same c a previous following
      | inr later ↦
          let there = rw later at found in
          let low = step_numbered-bound now s.sequence steps s c.1 there in
          let big : s.sequence < p.sequence = omega (arith, low, c.0.numbered) in
          kept-above now p s' above steps c a (omega (arith, low, w.numbered)) (
            Chain-replaced now s s' (some p) steps c.1 c.0.after there w from to
              (subst (λ o. sent_after o s' ≡ true) (lower p.sequence s.sequence big) previous)
              (subst (λ o. received_before (step_after s.sequence o steps) s' ≡ true)
                (higher p.sequence s.sequence big) following))
    ]
  where
    at_top :
        (x : ExternalStep)
        → x ≡ s
        → Chain now (x ∷ steps)
        → Under above (x ∷ steps)
        → sent_after (step_before s.sequence (x ∷ steps)) s' ≡ true
        → received_before (step_after s.sequence above (x ∷ steps)) s' ≡ true
        → Chain now (replace_step s' (x ∷ steps)) × Under above (replace_step s' (x ∷ steps))
    at_top x e k u l f =
        subst
          (λ y. Chain now (replace_step s' (y ∷ steps)) × Under above (replace_step s' (y ∷ steps)))
          (sym e)
          (top-replaced now s s' above steps (subst (λ y. Chain now (y ∷ steps)) e k)
            (subst (λ y. Under above (y ∷ steps)) e u) w from to
            (subst (λ y. sent_after (step_before s.sequence (y ∷ steps)) s' ≡ true) e l)
            (subst (λ y. received_before (step_after s.sequence above (y ∷ steps)) s' ≡ true) e f))

    lower :
        (k n : ℕ) → n < k → (if ltb k n then some p else step_before n steps) ≡ step_before n steps
    lower k n l = ground arith

    higher : (k n : ℕ) → n < k → (if ltb n k then some p else above) ≡ some p
    higher k n l = ground arith
