-- ===== src/Accounts/Lockout/Frozen.antt =====
-- apps/accounts/axes_hooks.py: a lockout while it lasts.
use udm_doctrack.Base.{
  ℕ, ◌+◌, Bool, true, false, Option, none, some, List, [], ◌∷◌, ◌≡◌, refl, sym, ◌∙◌, ap, subst,
  if◌then◌else◌, get_or, first_holds, some-injective, All, ltb, arith, Bool-cases, inl, inr, Text,
  is_empty,
}
use udm_doctrack.Accounts.Lockout.{
  Kind, username, ip, LoginLockout, Settings, Lockouts, same_key, is_for, find, record_for,
  live_record, live_records, current_stage, put, save, active_address, get_progressive_cooloff,
  advanced, still_locked, next_stage, decay_cutoff, cooloff_for_stage, row_of, fresh,
  record_lockout, on_user_locked_out, LockoutEvent, locked_out, asked, signed_in, cleared, dropped,
  filled, handle, run,
}
use udm_doctrack.Accounts.Lockout.Keys.{same_key-eq, find-put, find-put_same}

-- The row of a key has this unlock time and this stage.
abbrev pub Locked : Kind → Text → ℕ → ℕ → Lockouts → Type 0
Locked kind key until stage s =
    (row : LoginLockout) × (find kind key s.rows ≡ some row)
    × (row.locked_until ≡ some until)
    × (row.stage ≡ stage)

-- What can happen before the unlock time without an administrator or a sign-in: attempts that are
-- locked out again, on any account and from any address, requests that ask for their cool-off, and
-- cache entries that are dropped or stored.
abbrev pub Retries : ℕ → ℕ × LockoutEvent → Type 0
Retries until (now, locked_out attempt name address) = ltb (get_or attempt now) until ≡ true
Retries until (now, asked request) = Unit {0}
Retries until (now, signed_in must_change name) = ⊥
Retries until (now, cleared name address) = ⊥
Retries until (now, dropped kind key) = Unit {0}
Retries until (now, filled kind key row) = Unit {0}

pub advanced-key :
    (c : Settings) (now attempt : ℕ) (row : LoginLockout)
    → ((advanced c now attempt row).kind ≡ row.kind) × ((advanced c now attempt row).key ≡ row.key)
unfolding advanced
advanced-key c now attempt row = by_lock (still_locked attempt row)
  where
    by_lock :
        (t : Bool)
        → ((if t then record row { last_lockout_at = some attempt } else record row {
          stage = next_stage (decay_cutoff c now) row;
          last_lockout_at = some attempt;
          locked_until = some (attempt + cooloff_for_stage c (next_stage (decay_cutoff c now) row));
        }).kind
            ≡ row.kind)
          × ((if t then record row { last_lockout_at = some attempt } else record row {
            stage = next_stage (decay_cutoff c now) row;
            last_lockout_at = some attempt;
            locked_until =
                some (attempt + cooloff_for_stage c (next_stage (decay_cutoff c now) row));
          }).key
              ≡ row.key)
    by_lock true = (refl, refl)
    by_lock false = (refl, refl)

-- The row that a lockout writes for a key.
pub row_of-key :
    (kind : Kind) (key : Text) (s : Lockouts)
    → ((row_of kind key s).kind ≡ kind) × ((row_of kind key s).key ≡ key)
row_of-key kind key s = found (find kind key s.rows) refl
  where
    found :
        (o : Option LoginLockout)
        → find kind key s.rows ≡ o
        → ((get_or o (fresh kind key)).kind ≡ kind) × ((get_or o (fresh kind key)).key ≡ key)
    found none e = (refl, refl)
    found (some row) e =
        let same =
          same_key-eq kind key row.kind row.key (first_holds (is_for kind key) s.rows row e) in
        (sym same.0, sym same.1)

-- What a lockout writes is found under its key.
pub record_lockout-find :
    (c : Settings) (now : ℕ) (kind : Kind) (key : Text) (attempt : ℕ) (s : Lockouts)
    → find kind key (record_lockout c now kind key attempt s).rows
      ≡ some (advanced c now attempt (row_of kind key s))
unfolding record_lockout save
record_lockout-find c now kind key attempt s =
    let row = advanced c now attempt (row_of kind key s) in
    let own = row_of-key kind key s in
    let kept = advanced-key c now attempt (row_of kind key s) in
    subst (λ k. find k key (put row s.rows) ≡ some row) (kept.0 ∙ own.0)
      (subst (λ t. find row.kind t (put row s.rows) ≡ some row) (kept.1 ∙ own.1)
        (find-put_same row s.rows))

-- Another key's row stays.
pub record_lockout-other :
    (c : Settings) (now : ℕ) (kind : Kind) (key : Text) (attempt : ℕ) (kind' : Kind) (key' : Text)
    (s : Lockouts)
    → same_key kind key kind' key' ≡ false
    → find kind' key' (record_lockout c now kind key attempt s).rows ≡ find kind' key' s.rows
unfolding record_lockout save
record_lockout-other c now kind key attempt kind' key' s h =
    let row = advanced c now attempt (row_of kind key s) in
    let own = row_of-key kind key s in
    let kept = advanced-key c now attempt (row_of kind key s) in
    find-put kind' key' row s.rows (
      ap (λ k. same_key k row.key kind' key') (kept.0 ∙ own.0)
      ∙ ap (λ t. same_key kind t kind' key') (kept.1 ∙ own.1)
      ∙ h)

-- A locked row that is locked out again keeps its unlock time and its stage.
advanced-locked :
    (c : Settings) (now attempt until : ℕ) (row : LoginLockout)
    → row.locked_until ≡ some until
    → ltb attempt until ≡ true
    → ((advanced c now attempt row).locked_until ≡ some until)
      × ((advanced c now attempt row).stage ≡ row.stage)
unfolding advanced
advanced-locked c now attempt until row e h = rw (held row.locked_until e) (e, refl)
  where
    held : (o : Option ℕ) → o ≡ some until → elim o [ none ↦ false | some t ↦ ltb attempt t ] ≡ true
    held none k = cc
    held (some t) k = ap (ltb attempt) (some-injective k) ∙ h

record_lockout-Locked :
    (c : Settings) (now : ℕ) (kind' : Kind) (key' : Text) (attempt : ℕ) (kind : Kind) (key : Text)
    (until stage : ℕ) (s : Lockouts)
    → ltb attempt until ≡ true
    → Locked kind key until stage s
    → Locked kind key until stage (record_lockout c now kind' key' attempt s)
record_lockout-Locked c now kind' key' attempt kind key until stage s h (row, found, end, level) =
    elim (Bool-cases (same_key kind' key' kind key)) [
      | inr other ↦
          (row, record_lockout-other c now kind' key' attempt kind key s other ∙ found, end, level)
      | inl own ↦
          let same = same_key-eq kind' key' kind key own in
          let held = advanced-locked c now attempt until row end h in
          let written = record_lockout-find c now kind' key' attempt s in
          (
            advanced c now attempt row,
            subst
                (λ k.
                  find k key (record_lockout c now kind' key' attempt s).rows
                  ≡ some (advanced c now attempt row))
                same.0
                (subst
                  (λ t.
                    find kind' t (record_lockout c now kind' key' attempt s).rows
                    ≡ some (advanced c now attempt row))
                  same.1
                  (written
                    ∙ ap (λ o. some (advanced c now attempt (get_or o (fresh kind' key'))))
                        (ap (λ k. find k key' s.rows) same.0
                          ∙ (ap (λ t. find kind t s.rows) same.1 ∙ found)))),
            held.0,
            held.1 ∙ level,
          )
    ]

on_user_locked_out-Locked :
    (c : Settings) (now : ℕ) (attempt : Option ℕ) (name address : Text) (kind : Kind) (key : Text)
    (until stage : ℕ) (s : Lockouts)
    → ltb (get_or attempt now) until ≡ true
    → Locked kind key until stage s
    → Locked kind key until stage (on_user_locked_out c now attempt name address s)
unfolding on_user_locked_out
on_user_locked_out-Locked c now attempt name address kind key until stage s h l =
    recorded (is_empty address) ip address _ (recorded (is_empty name) username name s l)
  where
    recorded :
        (t : Bool) (kind' : Kind) (key' : Text) (d : Lockouts)
        → Locked kind key until stage d
        → Locked kind key until stage
            (if t then d else record_lockout c now kind' key' (get_or attempt now) d)
    recorded true kind' key' d k = k
    recorded false kind' key' d k =
        record_lockout-Locked c now kind' key' (get_or attempt now) kind key until stage d h k

-- A read leaves the table alone.
record_for-rows :
    (kind : Kind) (key : Text) (s : Lockouts) → (record_for kind key s).1.rows ≡ s.rows
unfolding record_for
record_for-rows kind key s = ground arith

live_record-rows :
    (cutoff : ℕ) (kind : Kind) (key : Text) (s : Lockouts)
    → (live_record cutoff kind key s).1.rows ≡ s.rows
unfolding live_record
live_record-rows cutoff kind key s = ground (arith, record_for-rows kind key s)

pub current_stage-rows :
    (c : Settings) (now : ℕ) (name address : Text) (s : Lockouts)
    → (current_stage c now name address s).1.rows ≡ s.rows
unfolding current_stage live_records
current_stage-rows c now name address s =
    live_record-rows (decay_cutoff c now) ip address
      (live_record (decay_cutoff c now) username name s).1
    ∙ live_record-rows (decay_cutoff c now) username name s

Locked-rows :
    (kind : Kind) (key : Text) (until stage : ℕ) (s s' : Lockouts)
    → s'.rows ≡ s.rows
    → Locked kind key until stage s
    → Locked kind key until stage s'
Locked-rows kind key until stage s s' e (row, found, end, level) =
    (row, ap (find kind key) e ∙ found, end, level)

handle-Locked :
    (c : Settings) (now : ℕ) (e : LockoutEvent) (kind : Kind) (key : Text) (until stage : ℕ)
    (s : Lockouts)
    → Retries until (now, e)
    → Locked kind key until stage s
    → Locked kind key until stage (handle c now e s)
unfolding handle get_progressive_cooloff
handle-Locked c now (locked_out attempt name address) kind key until stage s h l =
    on_user_locked_out-Locked c now attempt name address kind key until stage s h l
handle-Locked c now (asked none) kind key until stage s h l = l
handle-Locked c now (asked (some (name, address))) kind key until stage s h l =
    Locked-rows kind key until stage s (current_stage c now name (active_address c address) s).1
      (current_stage-rows c now name (active_address c address) s) l
handle-Locked c now (signed_in must_change name) kind key until stage s h l = elim h [ ]
handle-Locked c now (cleared name address) kind key until stage s h l = elim h [ ]
handle-Locked c now (dropped kind' key') kind key until stage s h l = l
handle-Locked c now (filled kind' key' row) kind key until stage s h l = l

-- A lockout does not move while it lasts: with whatever attempts are locked out again before its
-- unlock time, on any account and from any address, with any reads, any loss of cached entries
-- and whatever readers store in the cache,
-- the row of its username or address keeps its unlock time and its stage.
pub run-frozen :
    (c : Settings) (events : List (ℕ × LockoutEvent)) (kind : Kind) (key : Text) (until stage : ℕ)
    (s : Lockouts)
    → All (Retries until) events
    → Locked kind key until stage s
    → Locked kind key until stage (run c events s)
unfolding run
run-frozen c [] kind key until stage s h l = l
run-frozen c ((now, e) ∷ events) kind key until stage s h l =
    run-frozen c events kind key until stage (handle c now e s) h.1
      (handle-Locked c now e kind key until stage s h.0 l)
