-- ===== src/Base/Results.antt =====
-- What a service function gives: a value, or the exception that it raises. Every service runs in
-- one database transaction, so a raise leaves no new state behind.
use mathlib.Core.Path.{◌≡◌, refl}
use mathlib.Core.Bool.{Bool, true, false}

-- `PermissionDenied` and `ValidationError` of Django, and a failed `get` or database constraint.
pub data Error : Type 0 where
  permission_denied validation_error does_not_exist : Error

pub data Outcome {ℓ} (V : Type ℓ) : Type ℓ where
  raised : Error → Outcome V
  success : V → Outcome V

infixl 5 ◌>>=◌
infixl 5 ◌>>◌
-- One statement after another: the rest runs on the value, unless an exception came first.
abbrev pub ◌>>=◌ {κ ℓ} : {V : Type κ} {W : Type ℓ} → Outcome V → (V → Outcome W) → Outcome W
raised why >>= rest = raised why
success v >>= rest = rest v

-- The same for a statement without a value.
abbrev pub ◌>>◌ {ℓ} : {W : Type ℓ} → Outcome (Unit {0}) → Outcome W → Outcome W
action >> rest = action >>= (λ _. rest)

-- `if not b: raise why`
abbrev pub guard : Bool → Error → Outcome (Unit {0})
guard b why = elim b [ false ↦ raised why | true ↦ success tt ]

pub not_returned {ℓ} : {V : Type ℓ} (why : Error) (v : V) → raised why ≡ success v → ⊥
not_returned why v h = cc

pub success-injective {ℓ} : {V : Type ℓ} {v w : V} → success v ≡ success w → v ≡ w
success-injective h = cc

-- Reading a block that returned backwards: whatever follows from its first statement's value and
-- from the rest having returned on it, follows.
pub >>=-returned {ℓ κ μ} :
    {G : Type ℓ} {W : Type κ} {w : W} {V : Type μ} (action : Outcome V) (rest : V → Outcome W)
    → (action >>= rest) ≡ success w
    → ((v : V) → action ≡ success v → rest v ≡ success w → G)
    → G
>>=-returned (raised why) rest h goal = elim (not_returned why _ h) [ ]
>>=-returned (success v) rest h goal = goal v refl h

-- A guard that let the block go on.
pub guard-success : (b : Bool) (why : Error) {v : Unit {0}} → guard b why ≡ success v → b ≡ true
guard-success false why h = elim (not_returned why _ h) [ ]
guard-success true why h = refl
