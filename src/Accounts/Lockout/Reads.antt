-- ===== src/Accounts/Lockout/Reads.antt =====
-- apps/accounts/axes_hooks.py: reading through a cache whose answers are the table's.
use udm_doctrack.Base.{
  ℕ, Bool, true, false, Option, none, some, List, [], ◌∷◌, ◌++◌, ◌≡◌, refl, sym, ◌∙◌, ap, subst,
  if◌then◌else◌, All, Bool-cases, inl, inr, Text, is_empty,
}
use udm_doctrack.Accounts.Lockout.{
  Kind, username, ip, LoginLockout, Settings, Cached, Lockouts, same_key, find, decay_cutoff,
  lookup, record_for, live_row, live_record, live_records, highest_stage, current_stage,
}
use udm_doctrack.Accounts.Lockout.Keys.{same_key-eq}

-- Every cached answer is the table's.
abbrev pub Coherent : Lockouts → Type 0
Coherent s = All (λ (x : Cached). x.row ≡ find x.kind x.key s.rows) s.cache

-- A cached answer that was found is the table's.
lookup-find :
    (kind : Kind) (key : Text) (rows : List LoginLockout) (cache : List Cached) (x : Cached)
    → All (λ (y : Cached). y.row ≡ find y.kind y.key rows) cache
    → lookup kind key cache ≡ some x
    → x.row ≡ find kind key rows
lookup-find kind key rows [] x c h = cc
lookup-find kind key rows (y ∷ cache) x c h = elim (Bool-cases (same_key kind key y.kind y.key)) [
  | inl here ↦
      let same = same_key-eq kind key y.kind y.key here in
      subst (λ (z : Cached). z.row ≡ find kind key rows) (some_eq y x (rw here at h))
        (c.0 ∙ ap (λ k. find k y.key rows) (sym same.0) ∙ ap (λ t. find kind t rows) (sym same.1))
  | inr later ↦ lookup-find kind key rows cache x c.1 (rw later at h)
]
  where
    some_eq : (a b : Cached) → some a ≡ some b → a ≡ b
    some_eq a b e = cc

-- A read answers as the table does, and leaves the table alone and the cache coherent.
pub record Reads {ℓ} {A : Type ℓ} (s : Lockouts) (result : A × Lockouts) (answer : A) : Type ℓ where
  pub value : result.0 ≡ answer
  pub rows : result.1.rows ≡ s.rows
  pub coherent : Coherent result.1

record_for-Reads :
    (kind : Kind) (key : Text) (s : Lockouts)
    → Coherent s
    → Reads s (record_for kind key s) (find kind key s.rows)
unfolding record_for
record_for-Reads kind key s c = by_lookup (lookup kind key s.cache) refl
  where
    by_lookup :
        (o : Option Cached)
        → lookup kind key s.cache ≡ o
        → Reads s
            (elim o as (λ _. Option LoginLockout × Lockouts) [
              | some x ↦ (x.row, s)
              | none ↦ (
                find kind key s.rows,
                record s {
                  cache = record { kind = kind; key = key; row = find kind key s.rows } ∷ s.cache;
                },
              )
            ])
            (find kind key s.rows)
    by_lookup none e = record { value = refl; rows = refl; coherent = (refl, c) }
    by_lookup (some x) e = record {
      value = lookup-find kind key s.rows s.cache x c e;
      rows = refl;
      coherent = c;
    }

-- The live row of a key, by the table.
abbrev pub live_in : ℕ → List LoginLockout → Kind → Text → List LoginLockout
live_in cutoff rows kind key = if is_empty key then [] else live_row cutoff (find kind key rows)

live_record-Reads :
    (cutoff : ℕ) (kind : Kind) (key : Text) (s : Lockouts)
    → Coherent s
    → Reads s (live_record cutoff kind key s) (live_in cutoff s.rows kind key)
unfolding live_record
live_record-Reads cutoff kind key s c = by_key (is_empty key)
  where
    by_key :
        (t : Bool)
        → Reads s
            (if t
              then ([], s)
              else (live_row cutoff (record_for kind key s).0, (record_for kind key s).1))
            (if t then [] else live_row cutoff (find kind key s.rows))
    by_key true = record { value = refl; rows = refl; coherent = c }
    by_key false =
        let read = record_for-Reads kind key s c in
        record {
          value = ap (live_row cutoff) read.value;
          rows = read.rows;
          coherent = read.coherent;
        }

pub live_records-Reads :
    (c : Settings) (now : ℕ) (name address : Text) (s : Lockouts)
    → Coherent s
    → Reads s (live_records c now name address s) (
        live_in (decay_cutoff c now) s.rows username name
        ++ live_in (decay_cutoff c now) s.rows ip address)
unfolding live_records
live_records-Reads c now name address s k =
    let one = live_record-Reads (decay_cutoff c now) username name s k in
    let two =
      live_record-Reads (decay_cutoff c now) ip address
        (live_record (decay_cutoff c now) username name s).1 one.coherent in
    record {
      value =
          ap
            (λ xs.
              xs
              ++ (live_record (decay_cutoff c now) ip address
                  (live_record (decay_cutoff c now) username name s).1).0)
            one.value
          ∙ ap (λ ys. live_in (decay_cutoff c now) s.rows username name ++ ys)
              (two.value ∙ ap (λ rows. live_in (decay_cutoff c now) rows ip address) one.rows);
      rows = two.rows ∙ one.rows;
      coherent = two.coherent;
    }

pub current_stage-Reads :
    (c : Settings) (now : ℕ) (name address : Text) (s : Lockouts)
    → Coherent s
    → Reads s (current_stage c now name address s) (
        highest_stage (
          live_in (decay_cutoff c now) s.rows username name
          ++ live_in (decay_cutoff c now) s.rows ip address))
unfolding current_stage
current_stage-Reads c now name address s k =
    let read = live_records-Reads c now name address s k in
    record { value = ap highest_stage read.value; rows = read.rows; coherent = read.coherent }
