-- ===== src/Accounts/Otp/Limits.antt =====
-- apps/core/security.py: what a fixed-window counter lets through.
use udm_doctrack.Base.{
  ℕ, suc, ◌+◌, ◌≤◌, ◌<◌, Bool, true, false, Option, none, some, List, [], ◌∷◌, ◌≡◌, refl, ◌∙◌, ap,
  leb, if◌then◌else◌, All, arith, Bool-cases, inl, inr,
}
use udm_doctrack.Accounts.Otp.{Throttle, allow_sensitive_request}

-- How many of the requests at the given times does the counter let through?
unfoldable pub admitted : ℕ → ℕ → List ℕ → Option Throttle → ℕ
admitted limit seconds [] row = 0
admitted limit seconds (now ∷ times) row = elim (allow_sensitive_request now limit seconds row) [
  | none ↦ admitted limit seconds times row
  | some c ↦ suc (admitted limit seconds times (some c))
]

-- Inside its window the counter of a row only goes up, and stops at the limit.
allow-inside :
    (now limit seconds : ℕ) (c : Throttle)
    → now < c.expires_at
    → allow_sensitive_request now limit seconds (some c)
      ≡ (if leb limit c.attempts then none else some (record c { attempts = suc c.attempts }))
unfolding allow_sensitive_request
allow-inside now limit seconds c inside =
    let still : leb c.expires_at now ≡ false = ground arith in rw still

admitted_first :
    (limit seconds now : ℕ) (times : List ℕ) (c : Throttle)
    → now < c.expires_at
    → admitted limit seconds (now ∷ times) (some c) ≡ (
        if leb limit c.attempts
        then admitted limit seconds times (some c)
        else suc (admitted limit seconds times (some (record c { attempts = suc c.attempts }))))
unfolding admitted
admitted_first limit seconds now times c inside =
    ap counted (allow-inside now limit seconds c inside) ∙ by_room (leb limit c.attempts)
  where
    counted : Option Throttle → ℕ
    counted row = elim row [
      | none ↦ admitted limit seconds times (some c)
      | some d ↦ suc (admitted limit seconds times (some d))
    ]

    by_room :
        (full : Bool)
        → counted (if full then none else some (record c { attempts = suc c.attempts })) ≡ (
            if full
            then admitted limit seconds times (some c)
            else suc (admitted limit seconds times (some (record c { attempts = suc c.attempts }))))
    by_room true = refl
    by_room false = refl

-- Of all the requests that fall into the window of a row, at most as many pass as the limit still
-- leaves; together with those counted before, never more than the limit.
pub admitted-limit :
    (limit seconds : ℕ) (times : List ℕ) (c : Throttle)
    → c.attempts ≤ limit
    → All (λ now. now < c.expires_at) times
    → c.attempts + admitted limit seconds times (some c) ≤ limit
unfolding admitted
admitted-limit limit seconds [] c below inside = omega arith
admitted-limit limit seconds (now ∷ times) c below inside =
    let first = admitted_first limit seconds now times c inside.0 in
    elim (Bool-cases (leb limit c.attempts)) [
      | inl full ↦
          let same = admitted-limit limit seconds times c below inside.1 in
          omega (arith, rw full at first, same)
      | inr room ↦
          let more =
            admitted-limit limit seconds times (record c { attempts = suc c.attempts })
              (ground arith) inside.1 in
          omega (arith, rw room at first, more)
    ]
