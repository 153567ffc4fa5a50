-- ===== src/Accounts/Lockout.antt =====
-- apps/accounts/axes_hooks.py and the table of apps/accounts/models.py behind it: sign-in lockouts
-- whose wait doubles, with a read-through cache in front of the table.
--
-- Times are microseconds. A username or address that is absent is the empty text. What django-axes
-- decides (when an attempt is locked out, and its own list of failed attempts) is an argument.
pub mod Keys
pub mod Reads
pub mod Coherent
pub mod Frozen
pub mod Escalated
pub mod Examples
use udm_doctrack.Base.{
  ℕ, zero, suc, min, max, ◌+◌, ◌-◌, ◌*◌, ◌/◌, Bool, true, false, not, ◌&&◌, Option, none, some,
  List, [], ◌∷◌, ◌++◌, if◌then◌else◌, is_some, get_or, exists, keep, first, ltb, Text, is_empty,
  text_eq,
}

-- `LoginLockout.Kind`
pub data Kind : Type 0 where
  username ip : Kind

pub record LoginLockout : Type 0 where
  pub kind : Kind
  pub key : Text
  pub stage : ℕ
  pub locked_until : Option ℕ
  pub last_lockout_at : Option ℕ

-- The settings `AXES_COOLOFF_BASE_MINUTES`, `AXES_COOLOFF_MAX_MINUTES`,
-- `AXES_ESCALATION_DECAY_DAYS`, `AXES_ESCALATION_RESET_ON_LOGIN`, and whether
-- `AXES_LOCKOUT_PARAMETERS` is the username alone.
pub record Settings : Type 0 where
  pub base : ℕ
  pub ceiling : ℕ
  pub decay_days : ℕ
  pub reset_on_login : Bool
  pub username_only : Bool

-- A cached answer; none stands for `_NO_ROW`.
pub record Cached : Type 0 where
  pub kind : Kind
  pub key : Text
  pub row : Option LoginLockout

-- The table and the cache.
pub record Lockouts : Type 0 where
  pub rows : List LoginLockout
  pub cache : List Cached

abbrev pub second : ℕ
second = 1000000

abbrev pub day : ℕ
day = 86400 * 1000000

abbrev pub same_kind : Kind → Kind → Bool
same_kind username username = true
same_kind username ip = false
same_kind ip username = false
same_kind ip ip = true

abbrev pub same_key : Kind → Text → Kind → Text → Bool
same_key kind key kind' key' = same_kind kind kind' && text_eq key key'

abbrev pub is_for : Kind → Text → LoginLockout → Bool
is_for kind key row = same_key kind key row.kind row.key

abbrev pub find : Kind → Text → List LoginLockout → Option LoginLockout
find kind key rows = first (is_for kind key) rows

-- A cutoff before time 0 is 0: no time is earlier than either.
unfoldable pub decay_cutoff : Settings → ℕ → ℕ
decay_cutoff c now = now - c.decay_days * day

abbrev pub pow2 : ℕ → ℕ
pow2 zero = 1
pow2 (suc n) = 2 * pow2 n

unfoldable pub cooloff_for_stage : Settings → ℕ → ℕ
cooloff_for_stage c stage = min (c.base * pow2 (stage - 1)) c.ceiling * (60 * second)

abbrev pub lookup : Kind → Text → List Cached → Option Cached
lookup kind key cache = first (λ (x : Cached). same_key kind key x.kind x.key) cache

-- `_record_for`, where nothing comes between its query and its `cache.set`: the cached answer, or
-- the table's, which is then cached.
unfoldable pub record_for : Kind → Text → Lockouts → Option LoginLockout × Lockouts
record_for kind key s = elim (lookup kind key s.cache) [
  | some x ↦ (x.row, s)
  | none ↦ (
    find kind key s.rows,
    record s { cache = record { kind = kind; key = key; row = find kind key s.rows } ∷ s.cache },
  )
]

abbrev pub is_live : ℕ → LoginLockout → Bool
is_live cutoff row = elim row.last_lockout_at [ none ↦ false | some t ↦ not (ltb t cutoff) ]

abbrev pub live_row : ℕ → Option LoginLockout → List LoginLockout
live_row cutoff none = []
live_row cutoff (some row) = if is_live cutoff row then row ∷ [] else []

-- One turn of the loop of `_live_records`.
unfoldable pub live_record : ℕ → Kind → Text → Lockouts → List LoginLockout × Lockouts
live_record cutoff kind key s =
    if is_empty key
    then ([], s)
    else (live_row cutoff (record_for kind key s).0, (record_for kind key s).1)

unfoldable pub live_records : Settings → ℕ → Text → Text → Lockouts → List LoginLockout × Lockouts
live_records c now name address s =
    let (own, s1) = live_record (decay_cutoff c now) username name s in
    let (shared, s2) = live_record (decay_cutoff c now) ip address s1 in (own ++ shared, s2)

abbrev pub highest_stage : List LoginLockout → ℕ
highest_stage [] = 0
highest_stage (row ∷ rows) = max row.stage (highest_stage rows)

unfoldable pub current_stage : Settings → ℕ → Text → Text → Lockouts → ℕ × Lockouts
current_stage c now name address s =
    let (rows, s') = live_records c now name address s in (highest_stage rows, s')

-- The signal receivers on a saved or deleted row; see `filled` below for what a reader does at the
-- same time.
abbrev pub invalidate : Kind → Text → List Cached → List Cached
invalidate kind key cache = keep (λ (x : Cached). not (same_key kind key x.kind x.key)) cache

abbrev pub put : LoginLockout → List LoginLockout → List LoginLockout
put row [] = row ∷ []
put row (r ∷ rows) =
    let rest = put row rows in if is_for row.kind row.key r then row ∷ rows else r ∷ rest

unfoldable pub save : LoginLockout → Lockouts → Lockouts
save row s = record { rows = put row s.rows; cache = invalidate row.kind row.key s.cache }

-- `_active_lockout_ip`
abbrev pub active_address : Settings → Text → Text
active_address c address = if c.username_only then [] else address

-- `get_progressive_cooloff`, of the request's username and address if there is a request.
unfoldable pub get_progressive_cooloff :
    Settings → ℕ → Option (Text × Text) → Lockouts → ℕ × Lockouts
get_progressive_cooloff c now none s = (cooloff_for_stage c 0, s)
get_progressive_cooloff c now (some (name, address)) s =
    let (stage, s') = current_stage c now name (active_address c address) s in
    (cooloff_for_stage c stage, s')

-- `Q(kind=USERNAME, key=username) | Q(kind=IP, key=ip_address)`, each if it is given.
abbrev pub is_cleared : Text → Text → Kind → Text → Bool
is_cleared name address username key = not (is_empty name) && text_eq name key
is_cleared name address ip key = not (is_empty address) && text_eq address key

-- The deleted rows' answers leave the cache.
unfoldable pub clear_escalation : Text → Text → Lockouts → Lockouts
clear_escalation name address s = record {
  rows = keep (λ (r : LoginLockout). not (is_cleared name address r.kind r.key)) s.rows;
  cache =
      keep
        (λ (x : Cached). not (
          exists
            (λ (r : LoginLockout). is_cleared name address r.kind r.key && is_for x.kind x.key r)
            s.rows))
        s.cache;
}

abbrev pub still_locked : ℕ → LoginLockout → Bool
still_locked attempt row = elim row.locked_until [ none ↦ false | some t ↦ ltb attempt t ]

abbrev pub is_forgiven : ℕ → LoginLockout → Bool
is_forgiven cutoff row = elim row.last_lockout_at [ none ↦ false | some t ↦ ltb t cutoff ]

abbrev pub next_stage : ℕ → LoginLockout → ℕ
next_stage cutoff row = if is_forgiven cutoff row then 1 else suc row.stage

unfoldable pub advanced : Settings → ℕ → ℕ → LoginLockout → LoginLockout
advanced c now attempt row =
    if still_locked attempt row then record row { last_lockout_at = some attempt } else record row {
      stage = next_stage (decay_cutoff c now) row;
      last_lockout_at = some attempt;
      locked_until = some (attempt + cooloff_for_stage c (next_stage (decay_cutoff c now) row));
    }

abbrev pub fresh : Kind → Text → LoginLockout
fresh kind key = record {
  kind = kind;
  key = key;
  stage = 0;
  locked_until = none;
  last_lockout_at = none;
}

-- `get_or_create`
abbrev pub row_of : Kind → Text → Lockouts → LoginLockout
row_of kind key s = get_or (find kind key s.rows) (fresh kind key)

unfoldable pub record_lockout : Settings → ℕ → Kind → Text → ℕ → Lockouts → Lockouts
record_lockout c now kind key attempt s = save (advanced c now attempt (row_of kind key s)) s

-- `on_user_locked_out`; django-axes gives the time of the attempt, or the clock is read.
unfoldable pub on_user_locked_out : Settings → ℕ → Option ℕ → Text → Text → Lockouts → Lockouts
on_user_locked_out c now attempt name address s =
    let s1 =
      if is_empty name then s else record_lockout c now username name (get_or attempt now) s in
    if is_empty address then s1 else record_lockout c now ip address (get_or attempt now) s1

-- `on_user_logged_in`, for an account that has to change its password first or not.
unfoldable pub on_user_logged_in : Settings → Bool → Text → Lockouts → Lockouts
on_user_logged_in c must_change_password name s =
    if not c.reset_on_login
    then s
    else if must_change_password
    then s
    else clear_escalation name [] s

abbrev pub latest_until : List LoginLockout → Option ℕ
latest_until [] = none
latest_until (row ∷ rows) = elim row.locked_until [
  | none ↦ latest_until rows
  | some t ↦ some (elim (latest_until rows) [ none ↦ t | some u ↦ max t u ])
]

abbrev pub latest_time : List (Option ℕ) → Option ℕ
latest_time [] = none
latest_time (none ∷ times) = latest_time times
latest_time (some t ∷ times) = some (elim (latest_time times) [ none ↦ t | some u ↦ max t u ])

-- The unlock time that is shown: the recorded one, or the newest failed attempt's of django-axes.
abbrev pub unlock_at : Option ℕ → List (Option ℕ) → ℕ → Option ℕ
unlock_at (some t) attempts cool_off = some t
unlock_at none attempts cool_off = elim (latest_time attempts) [
  | none ↦ none
  | some t ↦ some (t + cool_off)
]

abbrev pub remaining : ℕ → ℕ → Option ℕ → ℕ
remaining now cool_off none = cool_off / second
remaining now cool_off (some t) = (t - now) / second

unfoldable pub seconds_remaining :
    Settings → ℕ → Text → Text → List (Option ℕ) → ℕ → Lockouts → ℕ × Lockouts
seconds_remaining c now name address attempts cool_off s =
    let (rows, s') = live_records c now name (active_address c address) s in
    (remaining now cool_off (unlock_at (latest_until rows) attempts cool_off), s')

-- What reaches the table and the cache: a locked-out attempt, a request that asks for its cool-off,
-- a sign-in, a reset by an administrator, the cache dropping an entry, and a reader that stores an
-- answer.
--
-- Writes of a key wait for one another on the row's lock, and an event that writes stands where its
-- transaction commits. A reader holds no lock: `filled` is the `cache.set` of one that queried the
-- table earlier, with whatever the table answered it then. Its query may be before a write, and its
-- `cache.set` after; so is an entry that is stored between the deletion of the cached answer, which
-- the signal runs before the commit, and the commit.
pub data LockoutEvent : Type 0 where
  locked_out : Option ℕ → Text → Text → LockoutEvent
  asked : Option (Text × Text) → LockoutEvent
  signed_in : Bool → Text → LockoutEvent
  cleared : Text → Text → LockoutEvent
  dropped : Kind → Text → LockoutEvent
  filled : Kind → Text → Option LoginLockout → LockoutEvent

unfoldable pub handle : Settings → ℕ → LockoutEvent → Lockouts → Lockouts
handle c now (locked_out attempt name address) s = on_user_locked_out c now attempt name address s
handle c now (asked request) s = (get_progressive_cooloff c now request s).1
handle c now (signed_in must_change name) s = on_user_logged_in c must_change name s
handle c now (cleared name address) s = clear_escalation name address s
handle c now (dropped kind key) s = record s { cache = invalidate kind key s.cache }
handle c now (filled kind key row) s = record s {
  cache = record { kind = kind; key = key; row = row } ∷ s.cache;
}

-- The events in order, each at its time.
unfoldable pub run : Settings → List (ℕ × LockoutEvent) → Lockouts → Lockouts
run c [] s = s
run c (e ∷ events) s = run c events (handle c e.0 e.1 s)
