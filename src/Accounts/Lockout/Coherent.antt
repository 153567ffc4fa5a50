-- ===== src/Accounts/Lockout/Coherent.antt =====
-- apps/accounts/axes_hooks.py: the cache in front of the lockout table against the table.
use udm_doctrack.Base.{
  ℕ, Bool, true, false, not, ◌&&◌, Option, none, some, List, [], ◌∷◌, ◌≡◌, sym, ◌∙◌, ap,
  if◌then◌else◌, get_or, exists, keep, All, Bool-cases, inl, inr, Text, is_empty,
}
use udm_doctrack.Accounts.Lockout.{
  Kind, username, ip, LoginLockout, Settings, Cached, Lockouts, same_key, is_for, find,
  current_stage, invalidate, put, save, active_address, get_progressive_cooloff, is_cleared,
  clear_escalation, advanced, row_of, record_lockout, on_user_locked_out, on_user_logged_in,
  latest_until, unlock_at, remaining, seconds_remaining, LockoutEvent, locked_out, asked, signed_in,
  cleared, dropped, filled, handle, run,
}
use udm_doctrack.Accounts.Lockout.Keys.{find-put, find-cleared}
use udm_doctrack.Accounts.Lockout.Reads.{Coherent, live_records-Reads, current_stage-Reads}

save-Coherent : (row : LoginLockout) (s : Lockouts) → Coherent s → Coherent (save row s)
unfolding save
save-Coherent row s c = kept s.cache c
  where
    kept :
        (cache : List Cached)
        → All (λ (x : Cached). x.row ≡ find x.kind x.key s.rows) cache
        → All
            (λ (x : Cached). x.row ≡ find x.kind x.key (put row s.rows))
            (invalidate row.kind row.key cache)
    kept [] k = tt
    kept (x ∷ cache) k = elim (Bool-cases (same_key row.kind row.key x.kind x.key)) [
      | inl own ↦ rw own (kept cache k.1)
      | inr other ↦ rw other (k.0 ∙ sym (find-put x.kind x.key row s.rows other), kept cache k.1)
    ]

clear_escalation-Coherent :
    (name address : Text) (s : Lockouts) → Coherent s → Coherent (clear_escalation name address s)
unfolding clear_escalation
clear_escalation-Coherent name address s c = kept s.cache c
  where
    gone : LoginLockout → Bool
    gone r = is_cleared name address r.kind r.key

    answers : Cached → Bool
    answers x = exists (λ r. gone r && is_for x.kind x.key r) s.rows

    kept :
        (cache : List Cached)
        → All (λ (x : Cached). x.row ≡ find x.kind x.key s.rows) cache
        → All
            (λ (x : Cached). x.row ≡ find x.kind x.key (keep (λ r. not (gone r)) s.rows))
            (keep (λ x. not (answers x)) cache)
    kept [] k = tt
    kept (x ∷ cache) k = elim (Bool-cases (answers x)) [
      | inl own ↦ rw own (kept cache k.1)
      | inr other ↦
          rw other (k.0 ∙ sym (find-cleared gone x.kind x.key s.rows other), kept cache k.1)
    ]

record_lockout-Coherent :
    (c : Settings) (now : ℕ) (kind : Kind) (key : Text) (attempt : ℕ) (s : Lockouts)
    → Coherent s
    → Coherent (record_lockout c now kind key attempt s)
unfolding record_lockout
record_lockout-Coherent c now kind key attempt s k =
    save-Coherent (advanced c now attempt (row_of kind key s)) s k

on_user_locked_out-Coherent :
    (c : Settings) (now : ℕ) (attempt : Option ℕ) (name address : Text) (s : Lockouts)
    → Coherent s
    → Coherent (on_user_locked_out c now attempt name address s)
unfolding on_user_locked_out
on_user_locked_out-Coherent c now attempt name address s k =
    recorded (is_empty address) ip address _ (recorded (is_empty name) username name s k)
  where
    recorded :
        (t : Bool) (kind : Kind) (key : Text) (d : Lockouts)
        → Coherent d
        → Coherent (if t then d else record_lockout c now kind key (get_or attempt now) d)
    recorded true kind key d l = l
    recorded false kind key d l = record_lockout-Coherent c now kind key (get_or attempt now) d l

-- A cache without a key's answers is as coherent as before.
dropped-Coherent :
    (kind : Kind) (key : Text) (rows : List LoginLockout) (cache : List Cached)
    → All (λ (x : Cached). x.row ≡ find x.kind x.key rows) cache
    → All (λ (x : Cached). x.row ≡ find x.kind x.key rows) (invalidate kind key cache)
dropped-Coherent kind key rows [] c = tt
dropped-Coherent kind key rows (x ∷ cache) c = elim (Bool-cases (same_key kind key x.kind x.key)) [
  | inl own ↦ rw own (dropped-Coherent kind key rows cache c.1)
  | inr other ↦ rw other (c.0, dropped-Coherent kind key rows cache c.1)
]

-- An answer that is stored is the one that the table gives at that time: no write came between the
-- reader's query and its `cache.set`.
abbrev pub IsCurrent : LockoutEvent → Lockouts → Type 0
IsCurrent (filled kind key row) s = row ≡ find kind key s.rows
IsCurrent (locked_out attempt name address) s = Unit {0}
IsCurrent (asked request) s = Unit {0}
IsCurrent (signed_in must_change name) s = Unit {0}
IsCurrent (cleared name address) s = Unit {0}
IsCurrent (dropped kind key) s = Unit {0}

-- No reader of the run is overtaken by a write.
abbrev pub NoneOvertaken : Settings → List (ℕ × LockoutEvent) → Lockouts → Type 0
NoneOvertaken c [] s = Unit {0}
NoneOvertaken c (e ∷ events) s = IsCurrent e.1 s × NoneOvertaken c events (handle c e.0 e.1 s)

handle-Coherent :
    (c : Settings) (now : ℕ) (e : LockoutEvent) (s : Lockouts)
    → IsCurrent e s
    → Coherent s
    → Coherent (handle c now e s)
unfolding handle get_progressive_cooloff on_user_logged_in
handle-Coherent c now (locked_out attempt name address) s q k =
    on_user_locked_out-Coherent c now attempt name address s k
handle-Coherent c now (asked none) s q k = k
handle-Coherent c now (asked (some (name, address))) s q k =
    (current_stage-Reads c now name (active_address c address) s k).coherent
handle-Coherent c now (signed_in must_change name) s q k = signed c.reset_on_login must_change
  where
    signed :
        (a b : Bool) → Coherent (if not a then s else if b then s else clear_escalation name [] s)
    signed false b = k
    signed true true = k
    signed true false = clear_escalation-Coherent name [] s k
handle-Coherent c now (cleared name address) s q k = clear_escalation-Coherent name address s k
handle-Coherent c now (dropped kind key) s q k = dropped-Coherent kind key s.rows s.cache k
handle-Coherent c now (filled kind key row) s q k = (q, k)

pub run-Coherent :
    (c : Settings) (events : List (ℕ × LockoutEvent)) (s : Lockouts)
    → NoneOvertaken c events s
    → Coherent s
    → Coherent (run c events s)
unfolding run
run-Coherent c [] s q k = k
run-Coherent c (e ∷ events) s q k =
    run-Coherent c events (handle c e.0 e.1 s) q.1 (handle-Coherent c e.0 e.1 s q.0 k)

-- The same table behind an empty cache.
abbrev pub uncached : Lockouts → Lockouts
uncached s = record s { cache = [] }

abbrev pub after_events : Settings → List (ℕ × LockoutEvent) → List LoginLockout → Lockouts
after_events c events rows = run c events (record { rows = rows; cache = [] })

-- With one cache shared by all processes, the cache in front of the lockout table changes no answer
-- unless a write overtakes a reader: after any events, starting from an empty cache, of which every
-- answer that a reader stores is still the table's when it is stored, the stage and the seconds on
-- the lockout page for any username and address are those that a read with the cache emptied gives,
-- and reading does not change the table.
pub run-uncached :
    (c : Settings) (events : List (ℕ × LockoutEvent)) (rows : List LoginLockout) (now : ℕ)
    (name address : Text) (attempts : List (Option ℕ)) (cool_off : ℕ)
    → NoneOvertaken c events (record { rows = rows; cache = [] })
    → ((current_stage c now name address (after_events c events rows)).0
        ≡ (current_stage c now name address (uncached (after_events c events rows))).0)
      × ((seconds_remaining c now name address attempts cool_off (after_events c events rows)).0
          ≡ (seconds_remaining c now name address attempts cool_off
              (uncached (after_events c events rows))).0)
      × ((current_stage c now name address (after_events c events rows)).1.rows
          ≡ (after_events c events rows).rows)
unfolding seconds_remaining
run-uncached c events rows now name address attempts cool_off none_overtaken =
    let s = after_events c events rows in
    let k = run-Coherent c events (record { rows = rows; cache = [] }) none_overtaken tt in
    let one = current_stage-Reads c now name address s k in
    let two = current_stage-Reads c now name address (uncached s) tt in
    let three = live_records-Reads c now name (active_address c address) s k in
    let four = live_records-Reads c now name (active_address c address) (uncached s) tt in
    (
      one.value ∙ sym two.value,
      ap (λ xs. remaining now cool_off (unlock_at (latest_until xs) attempts cool_off))
          (three.value ∙ sym four.value),
      one.rows,
    )
