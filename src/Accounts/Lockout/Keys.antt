-- ===== src/Accounts/Lockout/Keys.antt =====
-- apps/accounts/axes_hooks.py: the keys of the lockout table, and its rows after a write.
use udm_doctrack.Base.{
  ℕ, Bool, true, false, not, ◌&&◌, Option, some, List, [], ◌∷◌, ◌≡◌, refl, sym, ◌∙◌, ap, subst,
  if◌then◌else◌, exists, keep, first, first-keep, ◌==◌, arith, Bool-cases, inl, inr, Text, text_eq,
}
use udm_doctrack.Accounts.Lockout.{
  Kind, username, ip, LoginLockout, same_kind, same_key, is_for, find, put,
}

pub text_eq-eq : (a b : Text) → text_eq a b ≡ true → a ≡ b
text_eq-eq [] [] h = refl
text_eq-eq [] (y ∷ b) h = cc
text_eq-eq (x ∷ a) [] h = cc
text_eq-eq (x ∷ a) (y ∷ b) h =
    let both = conj (x == y) (text_eq a b) h in
    ap (λ z. z ∷ a) (same x y both.0) ∙ ap (λ t. y ∷ t) (text_eq-eq a b both.1)
  where
    same : (m n : ℕ) → (m == n) ≡ true → m ≡ n
    same m n e = ground arith

    conj : (p q : Bool) → (p && q) ≡ true → (p ≡ true) × (q ≡ true)
    conj p q e = ground arith

pub text_eq_refl : (a : Text) → text_eq a a ≡ true
text_eq_refl [] = refl
text_eq_refl (x ∷ a) = ground (arith, text_eq_refl a)

pub same_kind-eq : (a b : Kind) → same_kind a b ≡ true → a ≡ b
same_kind-eq username username h = refl
same_kind-eq username ip h = cc
same_kind-eq ip username h = cc
same_kind-eq ip ip h = refl

pub same_key-eq :
    (kind : Kind) (key : Text) (kind' : Kind) (key' : Text)
    → same_key kind key kind' key' ≡ true
    → (kind ≡ kind') × (key ≡ key')
same_key-eq kind key kind' key' h =
    let both = conj (same_kind kind kind') (text_eq key key') h in
    (same_kind-eq kind kind' both.0, text_eq-eq key key' both.1)
  where
    conj : (p q : Bool) → (p && q) ≡ true → (p ≡ true) × (q ≡ true)
    conj p q e = ground arith

pub same_key_refl : (kind : Kind) (key : Text) → same_key kind key kind key ≡ true
same_key_refl username key = text_eq_refl key
same_key_refl ip key = text_eq_refl key

-- A test for another key fails on a row, whichever way round it is written.
pub is_for-other :
    (kind : Kind) (key : Text) (row : LoginLockout)
    → same_key row.kind row.key kind key ≡ false
    → is_for kind key row ≡ false
is_for-other kind key row h = elim (Bool-cases (is_for kind key row)) [
  | inr differs ↦ differs
  | inl found ↦
      let same = same_key-eq kind key row.kind row.key found in
      elim (clash (
        sym (same_key_refl row.kind row.key)
        ∙ subst (λ k. same_key row.kind row.key k row.key ≡ false) same.0
            (subst (λ t. same_key row.kind row.key kind t ≡ false) same.1 h))) [ ]
]
  where
    clash : true ≡ false → ⊥
    clash w = cc

-- Another key's row is found as before when a row is put.
pub find-put :
    (kind : Kind) (key : Text) (row : LoginLockout) (rows : List LoginLockout)
    → same_key row.kind row.key kind key ≡ false
    → find kind key (put row rows) ≡ find kind key rows
find-put kind key row [] h = rw (is_for-other kind key row h) refl
find-put kind key row (r ∷ rows) h = elim (Bool-cases (is_for row.kind row.key r)) [
  | inl here ↦
      let same = same_key-eq row.kind row.key r.kind r.key here in
      rw here (
        skipped (is_for kind key row) (is_for kind key r) row r (find kind key rows)
          (is_for-other kind key row h)
          (is_for-other kind key r (
            subst (λ k. same_key k r.key kind key ≡ false) same.0
              (subst (λ t. same_key row.kind t kind key ≡ false) same.1 h))))
  | inr later ↦ rw (later, find-put kind key row rows h) refl
]
  where
    skipped :
        (p q : Bool) (a b : LoginLockout) (o : Option LoginLockout)
        → p ≡ false
        → q ≡ false
        → (if p then some a else o) ≡ (if q then some b else o)
    skipped p q a b o e f = rw (e, f) refl

-- The row that was put is found.
pub find-put_same :
    (row : LoginLockout) (rows : List LoginLockout)
    → find row.kind row.key (put row rows) ≡ some row
find-put_same row [] = rw (same_key_refl row.kind row.key) refl
find-put_same row (r ∷ rows) = elim (Bool-cases (is_for row.kind row.key r)) [
  | inl here ↦ rw here (rw (same_key_refl row.kind row.key) refl)
  | inr later ↦ rw later (rw (later, find-put_same row rows) refl)
]

-- What none of the deleted rows answers, is answered as before.
pub find-cleared :
    (gone : LoginLockout → Bool) (kind : Kind) (key : Text) (rows : List LoginLockout)
    → exists (λ r. gone r && is_for kind key r) rows ≡ false
    → find kind key (keep (λ r. not (gone r)) rows) ≡ find kind key rows
find-cleared gone kind key rows h =
    first-keep (is_for kind key) (λ r. not (gone r)) rows ∙ same rows h
  where
    same :
        (rs : List LoginLockout)
        → exists (λ r. gone r && is_for kind key r) rs ≡ false
        → first (λ r. not (gone r) && is_for kind key r) rs ≡ find kind key rs
    same [] e = refl
    same (r ∷ rs) e = ground (arith, same rs)
