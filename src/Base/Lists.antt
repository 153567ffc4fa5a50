-- ===== src/Base/Lists.antt =====
-- Lists measured by native numbers, with Boolean quantifiers and the predicate on all members.
use Prim.Native.Nat.{ℕ, suc, ◌+◌, ◌≤◌}
use mathlib.Core.Path.{◌≡◌, refl, ap}
use mathlib.Core.Bool.{Bool, true, false, not, ◌&&◌, ◌||◌}
use mathlib.Core.Logic.{inl, inr}
use mathlib.Core.Option.{Option, none, some}
use mathlib.Core.List.{List, [], ◌∷◌, ◌++◌, map}
use native.Mathlib.Omega.{arith}
use udm_doctrack.Base.Tests.{◌==◌, ltb, Bool-cases, if◌then◌else◌}

module _ {ℓ} {A : Type ℓ} where
  abbrev pub length : List A → ℕ
  length [] = 0
  length (_ ∷ xs) = suc (length xs)

  -- Does some member pass the test?
  abbrev pub exists : (A → Bool) → List A → Bool
  exists p [] = false
  exists p (x ∷ xs) = p x || exists p xs

  abbrev pub for_all : (A → Bool) → List A → Bool
  for_all p [] = true
  for_all p (x ∷ xs) = p x && for_all p xs

  abbrev pub keep : (A → Bool) → List A → List A
  keep p [] = []
  keep p (x ∷ xs) = let rest = keep p xs in if p x then x ∷ rest else rest

  abbrev pub first : (A → Bool) → List A → Option A
  first p [] = none
  first p (x ∷ xs) = let rest = first p xs in if p x then some x else rest

  abbrev pub All {κ} : (A → Type κ) → List A → Type κ
  All P [] = Unit
  All P (x ∷ xs) = P x × All P xs

  pub All-append {κ} : (P : A → Type κ) (xs ys : List A) → All P xs → All P ys → All P (xs ++ ys)
  All-append P [] ys hx hy = hy
  All-append P (x ∷ xs) ys hx hy = (hx.0, All-append P xs ys hx.1 hy)

  pub All-imp {κ μ} :
      (P : A → Type κ) (Q : A → Type μ) (xs : List A) → ((a : A) → P a → Q a) → All P xs → All Q xs
  All-imp P Q [] f h = tt
  All-imp P Q (x ∷ xs) f h = (f x h.0, All-imp P Q xs f h.1)

  pub length-append : (xs ys : List A) → length (xs ++ ys) ≡ length xs + length ys
  length-append [] ys = omega arith
  length-append (x ∷ xs) ys = omega (arith, length-append xs ys)

  pub exists-append :
      (p : A → Bool) (xs ys : List A) → exists p (xs ++ ys) ≡ (exists p xs || exists p ys)
  exists-append p [] ys = refl
  exists-append p (x ∷ xs) ys = ground (arith, exists-append p xs ys)

  pub keep-append : (p : A → Bool) (xs ys : List A) → keep p (xs ++ ys) ≡ keep p xs ++ keep p ys
  keep-append p [] ys = refl
  keep-append p (x ∷ xs) ys = ground (arith, keep-append p xs ys)

abbrev pub elem : ℕ → List ℕ → Bool
elem a xs = exists (λ x. a == x) xs

-- Laws of the Boolean quantifiers.
module _ {ℓ} {A : Type ℓ} where
  pub exists_cong :
      (p q : A → Bool) (xs : List A) → ((a : A) → p a ≡ q a) → exists p xs ≡ exists q xs
  exists_cong p q [] h = refl
  exists_cong p q (x ∷ xs) h = rw (h x, exists_cong p q xs h)

  pub exists-keep :
      (p q : A → Bool) (xs : List A) → exists p (keep q xs) ≡ exists (λ a. q a && p a) xs
  exists-keep p q [] = refl
  exists-keep p q (x ∷ xs) = ground (arith, exists-keep p q xs)

  pub exists_or :
      (p q : A → Bool) (xs : List A) → exists (λ a. p a || q a) xs ≡ (exists p xs || exists q xs)
  exists_or p q [] = refl
  exists_or p q (x ∷ xs) = ground (arith, exists_or p q xs)

  pub exists_false : (xs : List A) → exists (λ _. false) xs ≡ false
  exists_false [] = refl
  exists_false (x ∷ xs) = exists_false xs

  pub exists_const :
      (c : Bool) (p : A → Bool) (xs : List A) → exists (λ a. c && p a) xs ≡ (c && exists p xs)
  exists_const c p [] = ground arith
  exists_const c p (x ∷ xs) = ground (arith, exists_const c p xs)

  -- The same with the constant behind.
  pub exists_const' :
      (c : Bool) (p : A → Bool) (xs : List A) → exists (λ a. p a && c) xs ≡ (exists p xs && c)
  exists_const' c p [] = refl
  exists_const' c p (x ∷ xs) = ground (arith, exists_const' c p xs)

  pub keep-keep : (p q : A → Bool) (xs : List A) → keep p (keep q xs) ≡ keep (λ a. q a && p a) xs
  keep-keep p q [] = refl
  keep-keep p q (x ∷ xs) = ground (arith, keep-keep p q xs)

  pub keep_none : (p : A → Bool) (xs : List A) → exists p xs ≡ false → keep p xs ≡ []
  keep_none p [] h = refl
  keep_none p (x ∷ xs) h = ground (arith, keep_none p xs)

  pub length-keep : (p : A → Bool) (xs : List A) → length (keep p xs) ≤ length xs
  length-keep p [] = omega arith
  length-keep p (x ∷ xs) = ground (arith, length-keep p xs)

  -- Fewer pass a test than there are exactly when one fails it.
  pub length-keep_lt :
      (p : A → Bool) (xs : List A)
      → ltb (length (keep p xs)) (length xs) ≡ exists (λ a. not (p a)) xs
  length-keep_lt p [] = refl
  length-keep_lt p (x ∷ xs) = ground (arith, length-keep_lt p xs, length-keep p xs)

-- Two quantifiers over two lists may be swapped.
pub exists_swap {ℓ κ} :
    {A : Type ℓ} {B : Type κ} (t : A → B → Bool) (xs : List A) (ys : List B)
    → exists (λ a. exists (λ b. t a b) ys) xs ≡ exists (λ b. exists (λ a. t a b) xs) ys
exists_swap t [] ys = rw (exists_false ys)
exists_swap t (x ∷ xs) ys =
    rw (exists_swap t xs ys, exists_or (λ b. t x b) (λ b. exists (λ a. t a b) xs) ys)

-- Laws of the first member that passes a test.
module _ {ℓ} {A : Type ℓ} where
  pub first_cong : (p q : A → Bool) (xs : List A) → ((a : A) → p a ≡ q a) → first p xs ≡ first q xs
  first_cong p q [] h = refl
  first_cong p q (x ∷ xs) h = rw (h x, first_cong p q xs h)

  pub first-keep : (p q : A → Bool) (xs : List A) → first p (keep q xs) ≡ first (λ a. q a && p a) xs
  first-keep p q [] = refl
  first-keep p q (x ∷ xs) = ground (arith, first-keep p q xs)

  pub first-false : (xs : List A) → first (λ _. false) xs ≡ none
  first-false [] = refl
  first-false (x ∷ xs) = first-false xs

  pub first_holds : (p : A → Bool) (xs : List A) (a : A) → first p xs ≡ some a → p a ≡ true
  first_holds p [] a h = cc
  first_holds p (x ∷ xs) a h = elim (Bool-cases (p x)) [
    | inl here ↦ ground (arith, here)
    | inr later ↦ first_holds p xs a (rw later at h)
  ]

pub length-map {ℓ κ} :
    {A : Type ℓ} {B : Type κ} (f : A → B) (xs : List A) → length (map f xs) ≡ length xs
length-map f [] = refl
length-map f (x ∷ xs) = ap suc (length-map f xs)
