-- ===== src/OfficeHours/Window.antt =====
-- Counting the numbers of an interval that pass a test, and the overlap of two intervals as a count.
use udm_doctrack.Base.{
  ℕ, zero, suc, ◌+◌, ◌-◌, ◌≤◌, ◌<◌, min, max, ◌≡◌, refl, Bool, true, false, not, ◌&&◌, leb, ltb,
  if◌then◌else◌, arith,
}

abbrev pub bit : Bool → ℕ
bit b = if b then 1 else 0

-- How many of `a`, `a + 1`, …, `a + n - 1` pass the test?
pub count : (ℕ → Bool) → ℕ → ℕ → ℕ
count p a zero = 0
count p a (suc n) = bit (p a) + count p (suc a) n

abbrev pub within : ℕ → ℕ → ℕ → Bool
within lo hi t = leb lo t && ltb t hi

pub count-add : (p : ℕ → Bool) (a n m : ℕ) → count p a (n + m) ≡ count p a n + count p (a + n) m
unfolding count
count-add p a zero m = ground arith
count-add p a (suc n) m =
    let split : suc n + m ≡ suc (n + m) = omega arith in
    let shift : a + suc n ≡ suc a + n = omega arith in
    rw (split, shift) (omega (arith, count-add p (suc a) n m))

pub count_cong :
    (p q : ℕ → Bool) (a n : ℕ)
    → ((t : ℕ) → a ≤ t → t < a + n → p t ≡ q t)
    → count p a n ≡ count q a n
unfolding count
count_cong p q a zero h = refl
count_cong p q a (suc n) h =
    ground (arith, h a, count_cong p q (suc a) n (λ t u v. h t (omega arith) (omega arith)))

pub count_none : (a n : ℕ) → count (λ _. false) a n ≡ 0
unfolding count
count_none a zero = refl
count_none a (suc n) = omega (arith, count_none (suc a) n)

pub count-le : (p : ℕ → Bool) (a n : ℕ) → count p a n ≤ n
unfolding count
count-le p a zero = omega arith
count-le p a (suc n) = ground (arith, count-le p (suc a) n)

-- The overlap of [a, a + n) and [lo, hi).
pub count-within : (lo hi a n : ℕ) → count (within lo hi) a n ≡ min (a + n) hi - max a lo
unfolding count
count-within lo hi a zero = omega arith
count-within lo hi a (suc n) = ground (arith, count-within lo hi (suc a) n)

-- What lies in an outer window and not in an inner one.
pub count_without :
    (o l : ℕ → Bool) (a n : ℕ)
    → ((t : ℕ) → l t ≡ true → o t ≡ true)
    → count (λ t. o t && not (l t)) a n ≡ count o a n - count l a n
unfolding count
count_without o l a zero h = omega arith
count_without o l a (suc n) h =
    ground (arith, h a, count_without o l (suc a) n h, count_mono l o (suc a) n h)
  where
    count_mono :
        (p q : ℕ → Bool) (a n : ℕ) → ((t : ℕ) → p t ≡ true → q t ≡ true) → count p a n ≤ count q a n
    count_mono p q a zero h = omega arith
    count_mono p q a (suc n) h = ground (arith, h a, count_mono p q (suc a) n h)

-- A test that splits into two that never both pass.
pub count_split :
    (p q r : ℕ → Bool) (a n : ℕ)
    → ((t : ℕ) → bit (p t) ≡ bit (q t) + bit (r t))
    → count p a n ≡ count q a n + count r a n
unfolding count
count_split p q r a zero h = omega arith
count_split p q r a (suc n) h = omega (arith, h a, count_split p q r (suc a) n h)
