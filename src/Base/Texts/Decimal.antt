-- ===== src/Base/Texts/Decimal.antt =====
-- Printed numbers, and the fields of a text joined by dashes.
use Prim.Native.Nat.{ℕ, zero, suc, ◌+◌, ◌-◌, ◌*◌, ◌/◌, ◌%◌, ◌<◌}
use mathlib.Core.Path.{◌≡◌, refl, sym, ap, ◌∙◌}
use mathlib.Core.Logic.{inl, inr}
use mathlib.Core.Bool.{Bool, true, false}
use mathlib.Core.List.{[], ◌∷◌, ◌++◌}
use native.Mathlib.Omega.{arith}
use udm_doctrack.Base.Tests.{ltb, ◌==◌, if◌then◌else◌, Bool-cases}
use udm_doctrack.Base.Lists.{exists, exists-append}
use udm_doctrack.Base.Texts.{Text, decimal, decimal_fuel, zeros, zero_padded, text_length}

abbrev pub dash : ℕ
dash = 45

-- The number that digits spell, after a number already read.
decode : ℕ → Text → ℕ
decode acc [] = acc
decode acc (c ∷ s) = decode (acc * 10 + (c - 48)) s

decode-append : (acc : ℕ) (s t : Text) → decode acc (s ++ t) ≡ decode (decode acc s) t
unfolding decode
decode-append acc [] t = refl
decode-append acc (c ∷ s) t = decode-append (acc * 10 + (c - 48)) s t

decode-decimal_fuel : (f n : ℕ) → n < f → decode 0 (decimal_fuel f n) ≡ n
unfolding decimal_fuel
decode-decimal_fuel zero n h = elim h [ ]
decode-decimal_fuel (suc f) n h = elim (Bool-cases (ltb n 10)) [
  | inl last ↦ rw last (unfold decode in omega arith)
  | inr more ↦
      rw
        (
          more,
          decode-append 0 (decimal_fuel f (n / 10)) ((48 + n % 10) ∷ []),
          decode-decimal_fuel f (n / 10) (ground arith),
        )
        (unfold decode in omega arith)
]

decode-zeros : (k : ℕ) (s : Text) → decode 0 (zeros k ++ s) ≡ decode 0 s
unfolding decode
decode-zeros zero s = refl
decode-zeros (suc k) s = decode-zeros k s

decode-decimal : (n : ℕ) → decode 0 (decimal n) ≡ n
unfolding decimal
decode-decimal n = decode-decimal_fuel (suc n) n (omega arith)

pub decimal_injective : (n m : ℕ) → decimal n ≡ decimal m → n ≡ m
decimal_injective n m e = sym (decode-decimal n) ∙ ap (decode 0) e ∙ decode-decimal m

decode-zero_padded : (width n : ℕ) → decode 0 (zero_padded width n) ≡ n
unfolding zero_padded
decode-zero_padded width n =
    decode-zeros (width - text_length (decimal n)) (decimal n) ∙ decode-decimal n

pub zero_padded_injective : (width n m : ℕ) → zero_padded width n ≡ zero_padded width m → n ≡ m
zero_padded_injective width n m e =
    sym (decode-zero_padded width n) ∙ ap (decode 0) e ∙ decode-zero_padded width m

-- Does a dash occur?
abbrev pub has_dash : Text → Bool
has_dash s = exists (λ c. c == dash) s

decimal_fuel-has_dash : (f n : ℕ) → has_dash (decimal_fuel f n) ≡ false
unfolding decimal_fuel
decimal_fuel-has_dash zero n = refl
decimal_fuel-has_dash (suc f) n = ground (
  arith,
  exists-append (λ c. c == dash) (decimal_fuel f (n / 10)) ((48 + n % 10) ∷ []),
  decimal_fuel-has_dash f (n / 10),
)

zeros-has_dash : (k : ℕ) (s : Text) → has_dash s ≡ false → has_dash (zeros k ++ s) ≡ false
zeros-has_dash zero s h = h
zeros-has_dash (suc k) s h = zeros-has_dash k s h

pub decimal-has_dash : (n : ℕ) → has_dash (decimal n) ≡ false
unfolding decimal
decimal-has_dash n = decimal_fuel-has_dash (suc n) n

pub zero_padded-has_dash : (width n : ℕ) → has_dash (zero_padded width n) ≡ false
unfolding zero_padded
zero_padded-has_dash width n =
    zeros-has_dash (width - text_length (decimal n)) (decimal n) (decimal-has_dash n)

-- What stands before and after the last dash.
before_last : Text → Text
before_last [] = []
before_last (c ∷ s) = let rest = before_last s in if has_dash s then c ∷ rest else []

after_last : Text → Text
after_last [] = []
after_last (c ∷ s) = let rest = after_last s in if has_dash s then rest else s

ends_in_field : (a s : Text) → has_dash (a ++ dash ∷ s) ≡ true
ends_in_field [] s = refl
ends_in_field (c ∷ a) s = ground (arith, ends_in_field a s)

before_last-field : (a s : Text) → has_dash s ≡ false → before_last (a ++ dash ∷ s) ≡ a
unfolding before_last
before_last-field [] s h = rw h
before_last-field (c ∷ a) s h = rw (ends_in_field a s, before_last-field a s h)

after_last-field : (a s : Text) → has_dash s ≡ false → after_last (a ++ dash ∷ s) ≡ s
unfolding after_last
after_last-field [] s h = rw h
after_last-field (c ∷ a) s h = rw (ends_in_field a s, after_last-field a s h)

-- Texts that end in a dash and a field with no dash have the same field and the same front.
pub last_field_injective :
    (a b s t : Text)
    → has_dash s ≡ false
    → has_dash t ≡ false
    → a ++ dash ∷ s ≡ b ++ dash ∷ t
    → (a ≡ b) × (s ≡ t)
last_field_injective a b s t hs ht e = (
  sym (before_last-field a s hs) ∙ ap before_last e ∙ before_last-field b t ht,
  sym (after_last-field a s hs) ∙ ap after_last e ∙ after_last-field b t ht,
)

pub append_cancel : (p s t : Text) → p ++ s ≡ p ++ t → s ≡ t
append_cancel [] s t e = e
append_cancel (c ∷ p) s t e = append_cancel p s t (ap tail_of e)
  where
    tail_of : Text → Text
    tail_of [] = []
    tail_of (_ ∷ s) = s
