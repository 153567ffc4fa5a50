-- ===== src/Accounts/Otp/Laws.antt =====
-- apps/accounts/otp.py: any sequence of the requests that a pending challenge answers.
use udm_doctrack.Base.{
  ℕ, suc, ◌+◌, ◌≤◌, ◌<◌, Bool, true, false, not, ◌&&◌, ◌||◌, Option, none, some, List, [], ◌∷◌, ◌≡◌,
  refl, ◌∙◌, ap, sym, leb, ltb, if◌then◌else◌, is_key, first, Text, text_eq, Outcome, success,
  raised, validation_error, arith, Bool-cases, inl, inr, not_returned,
}
use udm_doctrack.Accounts.Otp.{
  Budgets, SignIn, Account, Moment, signs_in, is_reauth, is_current, pending, wrong_code, consume,
  refused, answer, compares, looked_up, code_matches, verify_for, verify, resend_for, resend,
  cancel, failed_budget, send_budget, differs, renewed, too_soon,
}

-- One request of the browser.
pub data Ask : Type 0 where
  try_code : Text → Ask
  ask_again give_up : Ask

pub record Turn : Type 0 where
  pub moment : Moment
  pub ask : Ask

unfoldable pub perform : Moment → Ask → SignIn → SignIn
perform m (try_code code) s = (verify m s code).0
perform m ask_again s = resend m s
perform m give_up s = cancel m s

unfoldable pub run : List Turn → SignIn → SignIn
run [] s = s
run (t ∷ turns) s = run turns (perform t.moment t.ask s)

-- Is the request a code that is compared and found wrong?
unfoldable pub guessed_wrong : Moment → Ask → SignIn → Bool
guessed_wrong m (try_code code) s = pending s && (elim m.account [
  | none ↦ false
  | some a ↦ compares m a s && not (code_matches m s.challenge code)
])
guessed_wrong m ask_again s = false
guessed_wrong m give_up s = false

unfoldable pub wrong_guesses : List Turn → SignIn → ℕ
wrong_guesses [] s = 0
wrong_guesses (t ∷ turns) s =
    let rest = wrong_guesses turns (perform t.moment t.ask s) in
    if guessed_wrong t.moment t.ask s then suc rest else rest

abbrev add_one : Bool → ℕ → ℕ
add_one wrong n = if wrong then suc n else n

answer-attempts :
    (m : Moment) (a : Account) (same : Bool) (s : SignIn)
    → (answer m a same s).0.challenge.attempts ≡ add_one (not same) s.challenge.attempts
unfolding answer wrong_code consume
answer-attempts m a false s = refl
answer-attempts m a true s =
    by_purpose (is_reauth s.challenge.purpose && not (is_key s.session.signed_in a.pk))
  where
    by_purpose :
        (elsewhere : Bool)
        → (if elsewhere
            then refused s
            else (consume m.now a s, success s.challenge.return_url)).0.challenge.attempts
          ≡ s.challenge.attempts
    by_purpose true = refl
    by_purpose false = refl

verify_for-attempts :
    (m : Moment) (a : Account) (s : SignIn) (code : Text)
    → (verify_for m a s code).0.challenge.attempts
      ≡ add_one (compares m a s && not (code_matches m s.challenge code)) s.challenge.attempts
unfolding verify_for compares
verify_for-attempts m a s code =
    ladder (is_current s.challenge a m.now) a.email_is_verified s.challenge.delivered
      (ltb m.now s.challenge.expires_at) (leb s.challenge.expires_at m.now)
      (failed_budget m.now false s.budgets).1 (code_matches m s.challenge code) (ground arith) s
      (looked_up m s) (answer m a (code_matches m s.challenge code) (looked_up m s)) refl
      (answer-attempts m a (code_matches m s.challenge code) (looked_up m s))
  where
    ladder :
        (current verified sent early late free same : Bool)
        → late ≡ not early
        → (s t : SignIn) (ans : SignIn × Outcome Text) → t.challenge.attempts ≡ s.challenge.attempts
        → ans.0.challenge.attempts ≡ add_one (not same) t.challenge.attempts
        → (if not current || not verified
            then refused s
            else if not sent || late
            then refused s
            else if not free
            then refused t
            else ans).0.challenge.attempts
          ≡ add_one
              (((current && verified) && ((sent && early) && free)) && not same)
              s.challenge.attempts
    ladder false verified sent early late free same e s t ans h k = refl
    ladder true false sent early late free same e s t ans h k = refl
    ladder true true false early late free same e s t ans h k = refl
    ladder true true true false late free same e s t ans h k = rw e
    ladder true true true true late false same e s t ans h k = rw e h
    ladder true true true true late true same e s t ans h k = rw e (k ∙ ap (add_one (not same)) h)

verify-attempts :
    (m : Moment) (s : SignIn) (code : Text)
    → (verify m s code).0.challenge.attempts
      ≡ add_one (guessed_wrong m (try_code code) s) s.challenge.attempts
unfolding verify guessed_wrong
verify-attempts m s code = elim (Bool-cases (pending s)) [
  | inr closed ↦ rw closed
  | inl waits ↦ rw waits (by_account m.account)
]
  where
    by_account :
        (row : Option Account)
        → let tried : SignIn × Outcome Text = elim row [
          | none ↦ refused s
          | some a ↦ verify_for m a s code
        ] in
          tried.0.challenge.attempts
          ≡ add_one
              (elim row [
                | none ↦ false
                | some a ↦ compares m a s && not (code_matches m s.challenge code)
              ])
              s.challenge.attempts
    by_account none = refl
    by_account (some a) = verify_for-attempts m a s code

resend_for-attempts :
    (m : Moment) (a : Account) (s : SignIn)
    → (resend_for m a s).challenge.attempts ≡ s.challenge.attempts
unfolding resend_for
resend_for-attempts m a s =
    ladder (is_current s.challenge a m.now) (too_soon s.challenge.last_sent_at m.now)
      (send_budget m.now s.budgets) (first (differs m s.challenge) m.draws)
  where
    ladder :
        (current soon : Bool) (budgets : Option Budgets) (secret : Option Text)
        → (if not current then s else if soon then s else elim budgets [
          | none ↦ s
          | some b ↦ elim secret [
            | none ↦ s
            | some draw ↦ record s { challenge = renewed m draw s.challenge; budgets = b }
          ]
        ]).challenge.attempts
          ≡ s.challenge.attempts
    ladder false soon budgets secret = refl
    ladder true true budgets secret = refl
    ladder true false none secret = refl
    ladder true false (some b) none = refl
    ladder true false (some b) (some draw) = refl

resend-attempts : (m : Moment) (s : SignIn) → (resend m s).challenge.attempts ≡ s.challenge.attempts
unfolding resend
resend-attempts m s = by_tests (pending s) m.account
  where
    by_tests :
        (waits : Bool) (row : Option Account)
        → (if not waits
            then s
            else elim row [ none ↦ s | some a ↦ resend_for m a s ]).challenge.attempts
          ≡ s.challenge.attempts
    by_tests false row = refl
    by_tests true none = refl
    by_tests true (some a) = resend_for-attempts m a s

cancel-attempts : (m : Moment) (s : SignIn) → (cancel m s).challenge.attempts ≡ s.challenge.attempts
unfolding cancel
cancel-attempts m s = by_test (pending s)
  where
    by_test :
        (waits : Bool)
        → (if waits
            then record s.challenge { cancelled_at = some m.now; digest = [] }
            else s.challenge).attempts
          ≡ s.challenge.attempts
    by_test true = refl
    by_test false = refl

perform-attempts :
    (m : Moment) (ask : Ask) (s : SignIn)
    → (perform m ask s).challenge.attempts ≡ add_one (guessed_wrong m ask s) s.challenge.attempts
unfolding perform guessed_wrong
perform-attempts m (try_code code) s = verify-attempts m s code
perform-attempts m ask_again s = resend-attempts m s
perform-attempts m give_up s = cancel-attempts m s

compares-attempts :
    (m : Moment) (a : Account) (s : SignIn) → compares m a s ≡ true → s.challenge.attempts < 5
unfolding compares is_current
compares-attempts m a s h = ground arith

-- A code is compared only while fewer than five were wrong.
guessed_wrong-attempts :
    (m : Moment) (ask : Ask) (s : SignIn) → guessed_wrong m ask s ≡ true → s.challenge.attempts < 5
unfolding guessed_wrong
guessed_wrong-attempts m (try_code code) s h = by_account (pending s) m.account h
  where
    by_account :
        (waits : Bool) (row : Option Account)
        → (waits && (elim row [
          | none ↦ false
          | some a ↦ compares m a s && not (code_matches m s.challenge code)
        ]))
          ≡ true
        → s.challenge.attempts < 5
    by_account waits none h = ground arith
    by_account waits (some a) h = ground (arith, compares-attempts m a s)
guessed_wrong-attempts m ask_again s h = cc
guessed_wrong-attempts m give_up s h = cc

-- However codes are tried, asked for again and cancelled, at whatever times and whatever becomes of
-- the account: a challenge with at most five wrong answers so far counts every further wrong one,
-- and never has more than five in all. Asking for a new code gives no new guesses.
pub run-wrong_guesses :
    (turns : List Turn) (s : SignIn)
    → s.challenge.attempts ≤ 5
    → ((run turns s).challenge.attempts ≡ s.challenge.attempts + wrong_guesses turns s)
      × (s.challenge.attempts + wrong_guesses turns s ≤ 5)
unfolding run wrong_guesses
run-wrong_guesses [] s h = omega arith
run-wrong_guesses (t ∷ turns) s h =
    let next = perform t.moment t.ask s in
    ground (
      arith,
      perform-attempts t.moment t.ask s,
      guessed_wrong-attempts t.moment t.ask s,
      run-wrong_guesses turns next,
    )

-- What a code that was accepted has passed.
pub record Accepted (m : Moment) (s : SignIn) (code : Text) (s' : SignIn) : Type 0 where
  pub account : Account
  pub row : m.account ≡ some account
  pub waiting : pending s ≡ true
  pub current : is_current s.challenge account m.now ≡ true
  pub verified : account.email_is_verified ≡ true
  pub in_time : m.now < s.challenge.expires_at
  pub matches : code_matches m s.challenge code ≡ true
  pub spent : s'.challenge.consumed_at ≡ some m.now
  pub closed : s'.session.pending ≡ none

refused_returns_nothing : (t s' : SignIn) (url : Text) → refused t ≡ (s', success url) → ⊥
refused_returns_nothing t s' url h =
    not_returned validation_error url (ap (λ (x : SignIn × Outcome Text). x.1) h)

answer-success :
    (m : Moment) (a : Account) (same : Bool) (s s' : SignIn) (url : Text)
    → answer m a same s ≡ (s', success url)
    → (same ≡ true) × (s'.challenge.consumed_at ≡ some m.now) × (s'.session.pending ≡ none)
unfolding answer consume
answer-success m a false s s' url h = elim (refused_returns_nothing _ s' url h) [ ]
answer-success m a true s s' url h =
    by_purpose (is_reauth s.challenge.purpose && not (is_key s.session.signed_in a.pk)) h
  where
    by_purpose :
        (elsewhere : Bool)
        → (if elsewhere then refused s else (consume m.now a s, success s.challenge.return_url))
          ≡ (s', success url)
        → (true ≡ true) × (s'.challenge.consumed_at ≡ some m.now) × (s'.session.pending ≡ none)
    by_purpose true h = elim (refused_returns_nothing _ s' url h) [ ]
    by_purpose false h = (
      refl,
      ap (λ (x : SignIn × Outcome Text). x.0.challenge.consumed_at) (sym h),
      ap (λ (x : SignIn × Outcome Text). x.0.session.pending) (sym h),
    )

-- A refusal in front of the rest was not taken.
went_on :
    (t s' : SignIn) (url : Text) (stop : Bool) (rest : SignIn × Outcome Text)
    → (if stop then refused t else rest) ≡ (s', success url)
    → (stop ≡ false) × (rest ≡ (s', success url))
went_on t s' url true rest h = elim (refused_returns_nothing t s' url h) [ ]
went_on t s' url false rest h = (refl, h)

both_passed : (a b : Bool) → (not a || not b) ≡ false → (a ≡ true) × (b ≡ true)
both_passed a b h = ground arith

in_time : (sent : Bool) (now limit : ℕ) → (not sent || leb limit now) ≡ false → now < limit
in_time sent now limit h = ground arith

verify_for-success :
    (m : Moment) (a : Account) (s s' : SignIn) (code url : Text)
    → verify_for m a s code ≡ (s', success url)
    → (is_current s.challenge a m.now ≡ true)
      × (a.email_is_verified ≡ true)
      × (m.now < s.challenge.expires_at)
      × (answer m a (code_matches m s.challenge code) (looked_up m s) ≡ (s', success url))
unfolding verify_for
verify_for-success m a s s' code url h =
    let (valid, h1) =
      went_on s s' url (not (is_current s.challenge a m.now) || not a.email_is_verified) _ h in
    let (fresh, h2) =
      went_on s s' url (not s.challenge.delivered || leb s.challenge.expires_at m.now) _ h1 in
    let (free, h3) =
      went_on (looked_up m s) s' url (not (failed_budget m.now false s.budgets).1) _ h2 in
    let (current, verified) =
      both_passed (is_current s.challenge a m.now) a.email_is_verified valid in
    (current, verified, in_time s.challenge.delivered m.now s.challenge.expires_at fresh, h3)

-- A code that is accepted is the one that the challenge's digest was made from (its digest is the
-- same), is in time, and belongs to a challenge that is open in this browser and current for an
-- active account with a verified address, at fewer than five wrong answers; the challenge is spent by
-- it.
pub verify-Accepted :
    (m : Moment) (s s' : SignIn) (code url : Text)
    → verify m s code ≡ (s', success url)
    → Accepted m s code s'
unfolding verify
verify-Accepted m s s' code url h =
    let (open_here, h1) = went_on s s' url (not (pending s)) _ h in
    by_account m.account refl h1 open_here
  where
    positive : (b : Bool) → not b ≡ false → b ≡ true
    positive b h = ground arith

    by_account :
        (row : Option Account)
        → m.account ≡ row
        → (let tried : SignIn × Outcome Text = elim row [
          | none ↦ refused s
          | some a ↦ verify_for m a s code
        ] in
            tried ≡ (s', success url))
        → not (pending s) ≡ false
        → Accepted m s code s'
    by_account none e h waits = elim (refused_returns_nothing s s' url h) [ ]
    by_account (some a) e h waits =
        let (current, verified, timely, answered) = verify_for-success m a s s' code url h in
        let (matches, spent, closed) =
          answer-success m a (code_matches m s.challenge code) (looked_up m s) s' url answered in
        record {
          account = a;
          row = e;
          waiting = positive (pending s) waits;
          current = current;
          verified = verified;
          in_time = timely;
          matches = matches;
          spent = spent;
          closed = closed;
        }

spent_not_pending : (s : SignIn) (now : ℕ) → s.challenge.consumed_at ≡ some now → pending s ≡ false
unfolding pending
spent_not_pending s now h = rw h (
    shut (is_key s.session.pending s.challenge.pk) (text_eq s.challenge.binding s.session.binding)
      (signs_in s.challenge.purpose))
  where
    shut : (a b c : Bool) → (a && (b && (c && false))) ≡ false
    shut a b c = ground arith

-- A challenge signs in once: after a code was accepted, no further code is, at whatever time, for
-- whatever becomes of the account, and the attempt changes nothing.
pub verify_once :
    (m later : Moment) (s s' : SignIn) (code next url : Text)
    → verify m s code ≡ (s', success url)
    → verify later s' next ≡ (s', raised validation_error)
unfolding verify
verify_once m later s s' code next url h =
    rw (spent_not_pending s' m.now (verify-Accepted m s s' code url h).spent)
