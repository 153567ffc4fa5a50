-- ===== src/Accounts/Otp.antt =====
-- apps/accounts/otp.py: one pending challenge of a browser, its codes and its limits.
--
-- The state is the challenge's row, the throttle rows that its calls touch (apps/core/security.py)
-- and the browser's session. `digest` stands for the keyed hash of a challenge's key, generation and
-- code; the comparison of two digests is equality. Times are microseconds.
pub mod Laws
pub mod Limits
pub mod Examples
use udm_doctrack.Base.{
  ℕ, suc, ◌+◌, ◌*◌, min, ◌-◌, Bool, true, false, not, ◌&&◌, ◌||◌, Option, none, some, List, [], ◌∷◌,
  ◌==◌, leb, ltb, if◌then◌else◌, is_none, is_key, first, Text, strip, text_eq, Outcome, success,
  raised, validation_error,
}

pub data Purpose : Type 0 where
  login reauth enroll change : Purpose

-- A row of `EmailChallenge`.
pub record Challenge : Type 0 where
  pub pk : ℕ
  pub user : ℕ
  pub purpose : Purpose
  pub binding : Text
  pub account_stamp : Text
  pub digest : Text
  pub generation : ℕ
  pub expires_at : ℕ
  pub pending_until : ℕ
  pub attempts : ℕ
  pub last_sent_at : Option ℕ
  pub delivered : Bool
  pub consumed_at : Option ℕ
  pub cancelled_at : Option ℕ
  pub return_url : Text

-- A row of `SecurityThrottle`.
pub record Throttle : Type 0 where
  pub attempts : ℕ
  pub expires_at : ℕ

-- The rows for the account and for the client's address; a row may not exist yet.
pub record Budgets : Type 0 where
  pub send_user_quarter : Option Throttle
  pub send_user_hour : Option Throttle
  pub send_ip : Option Throttle
  pub fail_user : Option Throttle
  pub fail_ip : Option Throttle

-- The session: the pending challenge, the browser's binding, the account that is signed in, and the
-- proof of a code (account, stamp, time).
pub record Session : Type 0 where
  pub pending : Option ℕ
  pub binding : Text
  pub signed_in : Option ℕ
  pub proof : Option (ℕ × (Text × ℕ))

pub record SignIn : Type 0 where
  pub challenge : Challenge
  pub budgets : Budgets
  pub session : Session

-- What the calls read of the account's row.
pub record Account : Type 0 where
  pub pk : ℕ
  pub is_active : Bool
  pub has_usable_password : Bool
  pub email_is_verified : Bool
  pub stamp : Text

-- What a call reads: the clock, the active row of the challenge's account, the hash, the random
-- draws and the new generation of a resend, and whether the mail was accepted.
pub record Moment : Type 0 where
  pub now : ℕ
  pub account : Option Account
  pub digest : ℕ → ℕ → Text → Text
  pub draws : List Text
  pub generation : ℕ
  pub accepted : Bool

abbrev pub second : ℕ
second = 1000000

-- `get_or_create`, and a new window where the old one is over.
abbrev pub window : ℕ → ℕ → Option Throttle → Throttle
window now seconds none = record { attempts = 0; expires_at = now + seconds * second }
window now seconds (some c) =
    if leb c.expires_at now then record { attempts = 0; expires_at = now + seconds * second } else c

-- `allow_sensitive_request`: the row afterwards, or a refusal.
unfoldable pub allow_sensitive_request : ℕ → ℕ → ℕ → Option Throttle → Option Throttle
allow_sensitive_request now limit seconds row =
    let c = window now seconds row in
    if leb limit c.attempts then none else some (record c { attempts = suc c.attempts })

-- `_budget`; a refusal raises, which rolls the rows back.
unfoldable pub send_budget : ℕ → Budgets → Option Budgets
send_budget now b = elim (allow_sensitive_request now 3 900 b.send_user_quarter) [
  | none ↦ none
  | some quarter ↦ elim (allow_sensitive_request now 10 3600 b.send_user_hour) [
    | none ↦ none
    | some hour ↦ elim (allow_sensitive_request now 20 900 b.send_ip) [
      | none ↦ none
      | some ip ↦ some (record b {
        send_user_quarter = some quarter;
        send_user_hour = some hour;
        send_ip = some ip;
      })
    ]
  ]
]

abbrev pub bump : Bool → Throttle → Throttle
bump increment c = if increment then record c { attempts = suc c.attempts } else c

-- `_failed_budget`: the account's row is saved before the address's is looked at.
unfoldable pub failed_budget : ℕ → Bool → Budgets → Budgets × Bool
failed_budget now increment b =
    let user = window now 900 b.fail_user in
    let ip = window now 900 b.fail_ip in
    let saved = record b { fail_user = some (bump increment user) } in
    if leb 10 user.attempts
    then (b, false)
    else if leb 30 ip.attempts
    then (saved, false)
    else (record saved { fail_ip = some (bump increment ip) }, true)

unfoldable pub is_current : Challenge → Account → ℕ → Bool
is_current c a now =
    a.is_active
    && (a.has_usable_password
        && (is_none c.consumed_at
            && (is_none c.cancelled_at
                && (ltb now c.pending_until
                    && (ltb c.attempts 5 && text_eq c.account_stamp a.stamp)))))

abbrev pub signs_in : Purpose → Bool
signs_in login = true
signs_in reauth = true
signs_in _ = false

abbrev pub is_reauth : Purpose → Bool
is_reauth reauth = true
is_reauth _ = false

abbrev pub is_login : Purpose → Bool
is_login login = true
is_login _ = false

-- `pending(request)`: does the session name the challenge, from this browser and still open?
unfoldable pub pending : SignIn → Bool
pending s =
    is_key s.session.pending s.challenge.pk
    && (text_eq s.challenge.binding s.session.binding
        && (signs_in s.challenge.purpose
            && (is_none s.challenge.consumed_at && is_none s.challenge.cancelled_at)))

-- A wrong code is counted on the challenge and on both throttle rows.
unfoldable pub wrong_code : ℕ → SignIn → SignIn
wrong_code now s = record s {
  challenge = record s.challenge { attempts = suc s.challenge.attempts };
  budgets = (failed_budget now true s.budgets).0;
}

-- The challenge is spent and the session holds the proof.
unfoldable pub consume : ℕ → Account → SignIn → SignIn
consume now a s = record s {
  challenge = record s.challenge { consumed_at = some now; digest = [] };
  session = record s.session {
    pending = none;
    signed_in = if is_login s.challenge.purpose then some a.pk else s.session.signed_in;
    proof = some (a.pk, (a.stamp, now));
  };
}

abbrev pub refused : SignIn → SignIn × Outcome Text
refused s = (s, raised validation_error)

-- What is left to decide once the code has been compared.
unfoldable pub answer : Moment → Account → Bool → SignIn → SignIn × Outcome Text
answer m a same s =
    if not same
    then refused (wrong_code m.now s)
    else if is_reauth s.challenge.purpose && not (is_key s.session.signed_in a.pk)
    then refused s
    else (consume m.now a s, success s.challenge.return_url)

-- Has the call come as far as comparing the code?
unfoldable pub compares : Moment → Account → SignIn → Bool
compares m a s =
    (is_current s.challenge a m.now && a.email_is_verified)
    && ((s.challenge.delivered && ltb m.now s.challenge.expires_at)
        && (failed_budget m.now false s.budgets).1)

-- The throttle rows as the reading pass of `_failed_budget` leaves them.
abbrev pub looked_up : Moment → SignIn → SignIn
looked_up m s = record s { budgets = (failed_budget m.now false s.budgets).0 }

abbrev pub code_matches : Moment → Challenge → Text → Bool
code_matches m c code = text_eq c.digest (m.digest c.pk c.generation (strip code))

unfoldable pub verify_for : Moment → Account → SignIn → Text → SignIn × Outcome Text
verify_for m a s code =
    if not (is_current s.challenge a m.now) || not a.email_is_verified
    then refused s
    else if not s.challenge.delivered || leb s.challenge.expires_at m.now
    then refused s
    else if not (failed_budget m.now false s.budgets).1
    then refused (looked_up m s)
    else answer m a (code_matches m s.challenge code) (looked_up m s)

unfoldable pub verify : Moment → SignIn → Text → SignIn × Outcome Text
verify m s code =
    if not (pending s)
    then refused s
    else elim m.account [ none ↦ refused s | some a ↦ verify_for m a s code ]

-- The resend's new code: the first of ten draws whose digest is not the current one.
abbrev pub differs : Moment → Challenge → Text → Bool
differs m c secret = not (text_eq c.digest (m.digest c.pk c.generation secret))

abbrev pub too_soon : Option ℕ → ℕ → Bool
too_soon none now = false
too_soon (some sent) now = ltb now (sent + 60 * second)

abbrev pub renewed : Moment → Text → Challenge → Challenge
renewed m secret c = record c {
  generation = m.generation;
  digest = m.digest c.pk m.generation secret;
  last_sent_at = some m.now;
  expires_at = min (m.now + 300 * second) c.pending_until;
  delivered = m.accepted;
}

-- The row and the throttles are committed before the mail goes out; `delivered` is set when it is
-- accepted.
unfoldable pub resend_for : Moment → Account → SignIn → SignIn
resend_for m a s =
    if not (is_current s.challenge a m.now)
    then s
    else if too_soon s.challenge.last_sent_at m.now
    then s
    else elim (send_budget m.now s.budgets) [
      | none ↦ s
      | some b ↦ elim (first (differs m s.challenge) m.draws) [
        | none ↦ s
        | some secret ↦ record s { challenge = renewed m secret s.challenge; budgets = b }
      ]
    ]

unfoldable pub resend : Moment → SignIn → SignIn
resend m s = if not (pending s) then s else elim m.account [ none ↦ s | some a ↦ resend_for m a s ]

unfoldable pub cancel : Moment → SignIn → SignIn
cancel m s =
    let closed =
      if pending s
      then record s.challenge { cancelled_at = some m.now; digest = [] }
      else s.challenge in
    record s { challenge = closed; session = record s.session { pending = none } }
