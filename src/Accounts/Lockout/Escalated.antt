-- ===== src/Accounts/Lockout/Escalated.antt =====
-- apps/accounts/axes_hooks.py: one lockout after the other.
use udm_doctrack.Base.{
  ℕ, suc, min, ◌+◌, ◌-◌, ◌*◌, Bool, true, false, ◌&&◌, ◌||◌, Option, none, some, List, [], ◌∷◌, ◌≡◌,
  refl, sym, ◌∙◌, ap, subst, if◌then◌else◌, get_or, ltb, arith, Bool-cases, inl, inr, Text,
  is_empty, text_eq,
}
use udm_doctrack.Accounts.Lockout.{
  username, ip, LoginLockout, Settings, Lockouts, second, find, pow2, cooloff_for_stage,
  decay_cutoff, advanced, still_locked, is_forgiven, row_of, fresh, record_lockout,
  on_user_locked_out, get_progressive_cooloff, active_address, LockoutEvent, locked_out, asked,
  signed_in, cleared, dropped, filled, handle, run,
}
use udm_doctrack.Accounts.Lockout.Keys.{text_eq-eq}
use udm_doctrack.Accounts.Lockout.Frozen.{
  record_lockout-find, record_lockout-other, current_stage-rows,
}

-- Is the event a locked-out attempt on the username, from whatever address?
abbrev pub locks : Text → LockoutEvent → Bool
locks name (locked_out attempt name' address) = text_eq name' name
locks name (asked request) = false
locks name (signed_in must_change name') = false
locks name (cleared name' address) = false
locks name (dropped kind key) = false
locks name (filled kind key row) = false

-- The time of the attempt, or of the event.
abbrev pub time_of : ℕ → LockoutEvent → ℕ
time_of now (locked_out attempt name address) = get_or attempt now
time_of now (asked request) = now
time_of now (signed_in must_change name) = now
time_of now (cleared name address) = now
time_of now (dropped kind key) = now
time_of now (filled kind key row) = now

-- No event that deletes rows: a sign-in or a reset.
abbrev pub keeps_rows : LockoutEvent → Bool
keeps_rows (locked_out attempt name address) = true
keeps_rows (asked request) = true
keeps_rows (signed_in must_change name) = false
keeps_rows (cleared name address) = false
keeps_rows (dropped kind key) = true
keeps_rows (filled kind key row) = true

-- How often the username is locked out, and when it last was.
abbrev pub lockouts : Text → List (ℕ × LockoutEvent) → ℕ
lockouts name [] = 0
lockouts name ((now, e) ∷ events) =
    let rest = lockouts name events in if locks name e then suc rest else rest

abbrev pub last_lockout : Text → Option ℕ → List (ℕ × LockoutEvent) → Option ℕ
last_lockout name last [] = last
last_lockout name last ((now, e) ∷ events) =
    last_lockout name (if locks name e then some (time_of now e) else last) events

-- The end of a lockout of a stage that began at a time.
abbrev pub end_of : Settings → ℕ → Option ℕ → Option ℕ
end_of c stage none = none
end_of c stage (some t) = some (t + cooloff_for_stage c stage)

-- Does the time come before the end, and is the last lockout before the cutoff?
abbrev pub is_before : ℕ → Option ℕ → Bool
is_before t none = false
is_before t (some end) = ltb t end

abbrev pub has_decayed : ℕ → Option ℕ → Bool
has_decayed cutoff none = false
has_decayed cutoff (some last) = ltb last cutoff

-- No event deletes rows, and each lockout of the username begins after the end of the one before it
-- and before the history is forgiven.
abbrev pub Successive : Settings → Text → ℕ → Option ℕ → List (ℕ × LockoutEvent) → Type 0
Successive c name stage last [] = Unit {0}
Successive c name stage last ((now, e) ∷ events) =
    (keeps_rows e ≡ true)
    × ((locks name e
          && (is_before (time_of now e) (end_of c stage last)
              || has_decayed (decay_cutoff c now) last))
        ≡ false)
    × Successive c name (if locks name e then suc stage else stage)
        (if locks name e then some (time_of now e) else last) events

-- The row after lockouts up to a stage, the last of them begun at a time.
record Reached (c : Settings) (stage : ℕ) (last : Option ℕ) (row : LoginLockout) : Type 0 where
  pub level : row.stage ≡ stage
  pub end : row.locked_until ≡ end_of c stage last
  pub begun : row.last_lockout_at ≡ last

still_locked-before :
    (t : ℕ) (row : LoginLockout) → still_locked t row ≡ is_before t row.locked_until
still_locked-before t row = by_time row.locked_until
  where
    by_time : (o : Option ℕ) → elim o [ none ↦ false | some u ↦ ltb t u ] ≡ is_before t o
    by_time none = refl
    by_time (some u) = refl

is_forgiven-decayed :
    (cutoff : ℕ) (row : LoginLockout)
    → is_forgiven cutoff row ≡ has_decayed cutoff row.last_lockout_at
is_forgiven-decayed cutoff row = by_time row.last_lockout_at
  where
    by_time :
        (o : Option ℕ) → elim o [ none ↦ false | some t ↦ ltb t cutoff ] ≡ has_decayed cutoff o
    by_time none = refl
    by_time (some t) = refl

-- A row that is not locked and not forgiven goes one stage up.
advanced-Reached :
    (c : Settings) (now attempt stage : ℕ) (last : Option ℕ) (row : LoginLockout)
    → Reached c stage last row
    → is_before attempt (end_of c stage last) ≡ false
    → has_decayed (decay_cutoff c now) last ≡ false
    → Reached c (suc stage) (some attempt) (advanced c now attempt row)
unfolding advanced
advanced-Reached c now attempt stage last row r over counted =
    rw (still_locked-before attempt row ∙ ap (is_before attempt) r.end ∙ over) (
      rw
        (is_forgiven-decayed (decay_cutoff c now) row
          ∙ ap (has_decayed (decay_cutoff c now)) r.begun
          ∙ counted)
        (record {
          level = ap suc r.level;
          end = ap (λ n. some (attempt + cooloff_for_stage c (suc n))) r.level;
          begun = refl;
        }))

-- Recording a lockout of an address leaves a username's row alone.
record_address :
    (c : Settings) (now attempt : ℕ) (address name : Text) (s : Lockouts) (given : Bool)
    → row_of username name (if given then s else record_lockout c now ip address attempt s)
      ≡ row_of username name s
record_address c now attempt address name s true = refl
record_address c now attempt address name s false =
    ap (λ o. get_or o (fresh username name))
      (record_lockout-other c now ip address attempt username name s refl)

not_both : {a b c : Bool} → (a && (b || c)) ≡ false → a ≡ true → (b ≡ false) × (c ≡ false)
not_both h e = ground arith

handle-Reached :
    (c : Settings) (name : Text) (now : ℕ) (e : LockoutEvent) (stage : ℕ) (last : Option ℕ)
    (s : Lockouts)
    → is_empty name ≡ false
    → keeps_rows e ≡ true
    → (locks name e
        && (is_before (time_of now e) (end_of c stage last)
            || has_decayed (decay_cutoff c now) last))
      ≡ false
    → Reached c stage last (row_of username name s)
    → Reached c
        (if locks name e then suc stage else stage)
        (if locks name e then some (time_of now e) else last)
        (row_of username name (handle c now e s))
unfolding handle on_user_locked_out get_progressive_cooloff
handle-Reached c name now (locked_out attempt name' address) stage last s given keeps free r =
    let t : ℕ = get_or attempt now in
    elim (Bool-cases (text_eq name' name)) [
      | inl own ↦
          let same = text_eq-eq name' name own in
          let (over, counted) = not_both free own in
          rw own (
            rw (ap is_empty same ∙ given) (
              subst (Reached c (suc stage) (some t))
                (sym (
                  record_address c now t address name (record_lockout c now username name' t s)
                    (is_empty address)
                  ∙ ap (λ o. get_or o (fresh username name))
                      (subst
                        (λ n.
                          find username n (record_lockout c now username name' t s).rows
                          ≡ some (advanced c now t (row_of username n s)))
                        same (record_lockout-find c now username name' t s))))
                (advanced-Reached c now t stage last (row_of username name s) r over counted)))
      | inr other ↦ rw other (
          subst (Reached c stage last)
            (sym (
              record_address c now t address name
                (if is_empty name' then s else record_lockout c now username name' t s)
                (is_empty address)
              ∙ other_name (is_empty name') other))
            r)
    ]
  where
    other_name :
        (b : Bool)
        → text_eq name' name ≡ false
        → row_of username name
            (if b then s else record_lockout c now username name' (get_or attempt now) s)
          ≡ row_of username name s
    other_name true o = refl
    other_name false o =
        ap (λ x. get_or x (fresh username name))
          (record_lockout-other c now username name' (get_or attempt now) username name s o)
handle-Reached c name now (asked none) stage last s given keeps free r = r
handle-Reached c name now (asked (some (n, a))) stage last s given keeps free r =
    subst (Reached c stage last)
      (ap (λ rows. get_or (find username name rows) (fresh username name))
        (sym (current_stage-rows c now n (active_address c a) s)))
      r
handle-Reached c name now (signed_in must_change n) stage last s given keeps free r = cc
handle-Reached c name now (cleared n a) stage last s given keeps free r = cc
handle-Reached c name now (dropped kind key) stage last s given keeps free r = r
handle-Reached c name now (filled kind key row) stage last s given keeps free r = r

run-Reached :
    (c : Settings) (name : Text) (events : List (ℕ × LockoutEvent)) (stage : ℕ) (last : Option ℕ)
    (s : Lockouts)
    → is_empty name ≡ false
    → Successive c name stage last events
    → Reached c stage last (row_of username name s)
    → Reached c
        (stage + lockouts name events)
        (last_lockout name last events)
        (row_of username name (run c events s))
unfolding run
run-Reached c name [] stage last s given h r =
    subst (λ n. Reached c n last (row_of username name s)) (zero_right stage) r
  where
    zero_right : (n : ℕ) → n ≡ n + 0
    zero_right n = omega arith
run-Reached c name ((now, e) ∷ events) stage last s given h r =
    subst
      (λ n.
        Reached c n (last_lockout name (if locks name e then some (time_of now e) else last) events)
          (row_of username name (run c events (handle c now e s))))
      (moved (locks name e) stage (lockouts name events))
      (run-Reached c name events (if locks name e then suc stage else stage)
        (if locks name e then some (time_of now e) else last) (handle c now e s) given h.2
        (handle-Reached c name now e stage last s given h.0 h.1 r))
  where
    moved : (b : Bool) (n m : ℕ) → (if b then suc n else n) + m ≡ n + (if b then suc m else m)
    moved true n m = omega arith
    moved false n m = refl

-- Each lockout waits twice as long as the one before: a username without a row, after any events of
-- which none is a sign-in or a reset, and of which every lockout of that username, from whatever
-- address, begins after the end of the one before it and before the history is forgiven, is at the
-- stage that counts those lockouts, and is locked from the last of them on for the base time doubled
-- once for each of them but the first, or for the ceiling if that is less. Lockouts of other
-- usernames, reads and what happens to the cache may come in between.
pub run-escalates :
    (c : Settings) (name : Text) (events : List (ℕ × LockoutEvent)) (s : Lockouts) (n last : ℕ)
    → is_empty name ≡ false
    → find username name s.rows ≡ none
    → Successive c name 0 none events
    → lockouts name events ≡ suc n
    → last_lockout name none events ≡ some last
    → (row : LoginLockout) × (find username name (run c events s).rows ≡ some row)
      × (row.stage ≡ suc n)
      × (row.locked_until ≡ some (last + min (c.base * pow2 n) c.ceiling * (60 * second)))
unfolding cooloff_for_stage
run-escalates c name events s n last given absent h count latest =
    let own : fresh username name ≡ row_of username name s =
      ap (λ o. get_or o (fresh username name)) (sym absent) in
    let all =
      run-Reached c name events 0 none s given h
        (subst (Reached c 0 none) own (record { level = refl; end = refl; begun = refl })) in
    let (row, found, same) =
      present (find username name (run c events s).rows) (all.level ∙ zero_left _ ∙ count) in
    (
      row,
      found,
      sym (ap (λ (r : LoginLockout). r.stage) same) ∙ all.level ∙ zero_left _ ∙ count,
      sym (ap (λ (r : LoginLockout). r.locked_until) same)
          ∙ all.end
          ∙ ap (end_of c (0 + lockouts name events)) latest
          ∙ ap (λ k. some (last + min (c.base * pow2 (k - 1)) c.ceiling * (60 * second)))
              (zero_left _ ∙ count)
          ∙ ap (λ k. some (last + min (c.base * pow2 k) c.ceiling * (60 * second))) (one_less n),
    )
  where
    one_less : (m : ℕ) → suc m - 1 ≡ m
    one_less m = omega arith

    zero_left : (m : ℕ) → 0 + m ≡ m
    zero_left m = omega arith

    present :
        (o : Option LoginLockout)
        → (get_or o (fresh username name)).stage ≡ suc n
        → (row : LoginLockout) × (o ≡ some row) × (get_or o (fresh username name) ≡ row)
    present none e = cc
    present (some row) e = (row, refl, refl)
