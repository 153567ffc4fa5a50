-- ===== src/Tracking/External/Run/Latest.antt =====
-- apps/tracking/external_services.py: the latest step after `correct_step` has replaced a step.
use udm_doctrack.Base.{
  ℕ, Bool, true, false, not, Option, none, some, List, [], ◌∷◌, ◌≡◌, refl, sym, ◌∙◌, ap, ◌⊎◌, inl,
  inr, some-injective, ◌==◌, if◌then◌else◌, arith, Bool-cases,
}
use udm_doctrack.Tracking.External.{Party, ExternalStep, arrived, latest_step}
use udm_doctrack.Tracking.External.Correct.{replace_step, step_numbered}
use udm_doctrack.Tracking.External.Run.Chain.{holder_after, Held}

-- The latest step after a replacement: itself, or the replacing one.
pub replace_step-latest :
    (s s' : ExternalStep) (steps : List ExternalStep)
    → step_numbered s.sequence steps ≡ some s
    → s'.sequence ≡ s.sequence
    → (latest_step (replace_step s' steps) ≡ latest_step steps)
      ⊎ ((latest_step steps ≡ some s) × (latest_step (replace_step s' steps) ≡ some s'))
replace_step-latest s s' [] found e = inl refl
replace_step-latest s s' (p ∷ steps) found e = elim (Bool-cases (p.sequence == s.sequence)) [
  | inl here ↦ inr (rw here at found, ap some (chosen p.sequence s'.sequence s.sequence e here))
  | inr later ↦ inl (ap some (passed p.sequence s'.sequence s.sequence e later))
]
  where
    chosen : (k m n : ℕ) → m ≡ n → (k == n) ≡ true → (if k == m then s' else p) ≡ s'
    chosen k m n e h = ground arith

    passed : (k m n : ℕ) → m ≡ n → (k == n) ≡ false → (if k == m then s' else p) ≡ p
    passed k m n e h = ground arith

-- What the custody columns read of a list of steps is what they read of its latest one.
pub Held-latest :
    (holder : Party) (xs ys : List ExternalStep)
    → latest_step xs ≡ latest_step ys
    → Held holder ys
    → Held holder xs
Held-latest holder [] ys e h = tt
Held-latest holder (x ∷ xs) [] e h = cc
Held-latest holder (x ∷ xs) (y ∷ ys) e h = h ∙ sym (ap holder_after (some-injective e))

pub Held-some :
    (holder : Party) (s : ExternalStep) (xs : List ExternalStep)
    → latest_step xs ≡ some s
    → holder ≡ holder_after s
    → Held holder xs
Held-some holder s [] e h = tt
Held-some holder s (x ∷ xs) e h = h ∙ sym (ap holder_after (some-injective e))

pub Held-holder :
    (holder : Party) (s : ExternalStep) (xs : List ExternalStep)
    → latest_step xs ≡ some s
    → Held holder xs
    → holder ≡ holder_after s
Held-holder holder s [] e h = cc
Held-holder holder s (x ∷ xs) e h = h ∙ ap holder_after (some-injective e)

abbrev pub transit : Option ExternalStep → Bool
transit none = false
transit (some s) = not (arrived s)

pub transit-latest :
    (xs : List ExternalStep)
    → elim xs [ [] ↦ false | x ∷ _ ↦ not (arrived x) ] ≡ transit (latest_step xs)
transit-latest [] = refl
transit-latest (x ∷ xs) = refl

-- A replacement that keeps whether the step has arrived keeps whether the document is under way.
pub replace_step-transit :
    (s s' : ExternalStep) (steps : List ExternalStep)
    → step_numbered s.sequence steps ≡ some s
    → s'.sequence ≡ s.sequence
    → arrived s' ≡ arrived s
    → transit (latest_step (replace_step s' steps)) ≡ transit (latest_step steps)
replace_step-transit s s' steps found e same = elim (replace_step-latest s s' steps found e) [
  | inl k ↦ ap transit k
  | inr k ↦ ap transit k.1 ∙ (ap not same ∙ sym (ap transit k.0))
]

pub holder_after-same :
    (s s' : ExternalStep)
    → arrived s' ≡ arrived s
    → s'.sender ≡ s.sender
    → s'.recipient ≡ s.recipient
    → holder_after s' ≡ holder_after s
holder_after-same s s' a from to = chosen (arrived s') (arrived s) a
  where
    chosen :
        (b c : Bool)
        → b ≡ c
        → (if b then s'.recipient else s'.sender) ≡ (if c then s.recipient else s.sender)
    chosen true true e = to
    chosen false false e = from
    chosen true false e = cc
    chosen false true e = cc
