-- ===== src/Accounts/Lockout/Examples.antt =====
-- A username is locked out three times in a row, and retries in vain.
use udm_doctrack.Base.{ℕ, ◌+◌, ◌*◌, true, false, none, some, List, [], ◌∷◌, ◌≡◌, refl, text}
use udm_doctrack.Accounts.Lockout.{
  username, LoginLockout, Settings, Lockouts, second, find, decay_cutoff, cooloff_for_stage,
  current_stage, seconds_remaining, advanced, record_lockout, on_user_locked_out, LockoutEvent,
  locked_out, asked, dropped, filled, live_records, live_record, record_for,
  get_progressive_cooloff, handle, run, save,
}
use udm_doctrack.Accounts.Lockout.Coherent.{uncached, after_events, run-uncached}
use udm_doctrack.Accounts.Lockout.Frozen.{Locked, run-frozen}
use udm_doctrack.Accounts.Lockout.Escalated.{run-escalates}

-- Fifteen minutes, at most forty, forgiven after a week.
abbrev settings : Settings
settings = record {
  base = 15;
  ceiling = 40;
  decay_days = 7;
  reset_on_login = false;
  username_only = true;
}

abbrev minutes : ℕ → ℕ
minutes n = n * (60 * second)

abbrev empty : Lockouts
empty = record { rows = []; cache = [] }

-- Three lockouts at minutes 0, 20 and 60, from two addresses, with another account's in between.
abbrev three_times : List (ℕ × LockoutEvent)
three_times =
    (0, locked_out (some 0) (text "ana") (text "10.0.0.1"))
    ∷ (minutes 5, locked_out (some (minutes 5)) (text "bo") (text "10.0.0.1"))
    ∷ (minutes 20, locked_out none (text "ana") (text "10.0.0.1"))
    ∷ (minutes 21, asked (some (text "ana", text "10.0.0.1")))
    ∷ (minutes 60, locked_out (some (minutes 60)) (text "ana") (text "10.0.0.2"))
    ∷ []

run-escalates_example :
    (row : LoginLockout) × (find username (text "ana") (run settings three_times empty).rows
      ≡ some row)
    × (row.stage ≡ 3)
    × (row.locked_until ≡ some (minutes 60 + minutes 40))
unfolding decay_cutoff cooloff_for_stage
run-escalates_example =
    run-escalates settings (text "ana") three_times empty 2 (minutes 60) refl refl
      (refl, refl, (refl, refl, (refl, refl, (refl, refl, (refl, refl, tt))))) refl refl

abbrev once : Lockouts
once = run settings ((0, locked_out (some 0) (text "ana") []) ∷ []) empty

abbrev in_vain : List (ℕ × LockoutEvent)
in_vain =
    (minutes 5, locked_out (some (minutes 5)) (text "ana") (text "10.0.0.1"))
    ∷ (minutes 6, asked (some (text "ana", text "10.0.0.2")))
    ∷ (minutes 7, dropped username (text "ana"))
    ∷ (minutes 14, locked_out none (text "bo") (text "10.0.0.1"))
    ∷ []

run-frozen_example : Locked username (text "ana") (minutes 15) 1 (run settings in_vain once)
unfolding run handle on_user_locked_out record_lockout save advanced decay_cutoff cooloff_for_stage
run-frozen_example =
    run-frozen settings in_vain username (text "ana") (minutes 15) 1 once
      (refl, (tt, (tt, (refl, tt)))) (_, refl, refl, refl)

-- A reader that stores what the table still says.
abbrev quiet : List (ℕ × LockoutEvent)
quiet =
    (minutes 5, locked_out (some (minutes 5)) (text "ana") (text "10.0.0.1"))
    ∷ (minutes 6, asked (some (text "ana", text "10.0.0.2")))
    ∷ (minutes 14, filled username (text "bo") none)
    ∷ []

run-uncached_example :
    ((current_stage settings (minutes 14) (text "ana") [] (after_events settings quiet once.rows)).0
      ≡ (current_stage settings
          (minutes 14)
          (text "ana")
          []
          (uncached (after_events settings quiet once.rows))).0)
    × ((seconds_remaining settings
          (minutes 14)
          (text "ana")
          []
          []
          (minutes 15)
          (after_events settings quiet once.rows)).0
        ≡ (seconds_remaining settings
            (minutes 14)
            (text "ana")
            []
            []
            (minutes 15)
            (uncached (after_events settings quiet once.rows))).0)
    × ((current_stage settings
          (minutes 14)
          (text "ana")
          []
          (after_events settings quiet once.rows)).1.rows
        ≡ (after_events settings quiet once.rows).rows)
unfolding run handle get_progressive_cooloff on_user_locked_out record_lockout save advanced
    decay_cutoff cooloff_for_stage current_stage live_records live_record record_for
run-uncached_example =
    run-uncached settings quiet once.rows (minutes 14) (text "ana") [] [] (minutes 15)
      (tt, (tt, (refl, tt)))

-- A reader that queried before the second lockout and stores after it: its answer is stale.
abbrev overtaken : List (ℕ × LockoutEvent)
overtaken =
    (minutes 20, locked_out none (text "ana") [])
    ∷ (minutes 20, filled username (text "ana") (find username (text "ana") once.rows))
    ∷ []

overtaken_stage :
    ((current_stage settings
        (minutes 21)
        (text "ana")
        []
        (after_events settings overtaken once.rows)).0
      ≡ 1)
    × ((current_stage settings
          (minutes 21)
          (text "ana")
          []
          (uncached (after_events settings overtaken once.rows))).0
        ≡ 2)
unfolding run handle on_user_locked_out record_lockout save advanced decay_cutoff cooloff_for_stage
    current_stage live_records live_record record_for
overtaken_stage = (refl, refl)
