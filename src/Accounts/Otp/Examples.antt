-- ===== src/Accounts/Otp/Examples.antt =====
-- A browser that answers its code wrongly, then rightly, then tries again.
use udm_doctrack.Base.{
  ℕ, ◌+◌, ◌≤◌, true, none, some, List, [], ◌∷◌, ◌++◌, ◌≡◌, refl, Text, text, decimal, strip,
  success, raised, validation_error, arith,
}
use udm_doctrack.Accounts.Otp.{
  login, SignIn, Account, Moment, pending, is_current, failed_budget, consume, answer, verify_for,
  verify,
}
use udm_doctrack.Accounts.Otp.Laws.{
  Turn, try_code, ask_again, run, wrong_guesses, run-wrong_guesses, Accepted, verify-Accepted,
  verify_once,
}
use udm_doctrack.Accounts.Otp.Limits.{admitted, admitted-limit}

abbrev clerk : Account
clerk = record {
  pk = 1;
  is_active = true;
  has_usable_password = true;
  email_is_verified = true;
  stamp = text "s";
}

-- The hash of the example writes the generation before the code.
abbrev hash : ℕ → ℕ → Text → Text
hash pk generation code = decimal generation ++ code

abbrev at_time : ℕ → Moment
at_time now = record {
  now = now;
  account = some clerk;
  digest = hash;
  draws = text "222222" ∷ [];
  generation = 8;
  accepted = true;
}

abbrev started : SignIn
started = record {
  challenge = record {
    pk = 9;
    user = 1;
    purpose = login;
    binding = text "b";
    account_stamp = text "s";
    digest = text "7111111";
    generation = 7;
    expires_at = 300000000;
    pending_until = 600000000;
    attempts = 0;
    last_sent_at = some 0;
    delivered = true;
    consumed_at = none;
    cancelled_at = none;
    return_url = text "/";
  };
  budgets = record {
    send_user_quarter = none;
    send_user_hour = none;
    send_ip = none;
    fail_user = none;
    fail_ip = none;
  };
  session = record { pending = some 9; binding = text "b"; signed_in = none; proof = none };
}

abbrev entered : SignIn
entered = (verify (at_time 1000000) started (text " 111111 ")).0

accepted : verify (at_time 1000000) started (text " 111111 ") ≡ (entered, success (text "/"))
unfolding verify verify_for answer consume pending is_current failed_budget decimal strip
accepted = refl

verify-Accepted_example : Accepted (at_time 1000000) started (text " 111111 ") entered
verify-Accepted_example =
    verify-Accepted (at_time 1000000) started entered (text " 111111 ") (text "/") accepted

verify_once_example :
    verify (at_time 2000000) entered (text "111111") ≡ (entered, raised validation_error)
verify_once_example =
    verify_once (at_time 1000000) (at_time 2000000) started entered (text " 111111 ")
      (text "111111") (text "/") accepted

-- Two wrong answers, with a new code in between.
abbrev asks : List Turn
asks =
    record { moment = at_time 1000000; ask = try_code (text "000000") }
    ∷ record { moment = at_time 90000000; ask = ask_again }
    ∷ record { moment = at_time 91000000; ask = try_code (text "111111") }
    ∷ []

run-wrong_guesses_example :
    ((run asks started).challenge.attempts ≡ 0 + wrong_guesses asks started)
    × (0 + wrong_guesses asks started ≤ 5)
run-wrong_guesses_example = run-wrong_guesses asks started (omega arith)

-- Two of the three requests in the window pass.
admitted-limit_example :
    1 + admitted 3 900 (10 ∷ 20 ∷ 30 ∷ []) (some (record { attempts = 1; expires_at = 900000000 }))
    ≤ 3
admitted-limit_example =
    admitted-limit 3 900 (10 ∷ 20 ∷ 30 ∷ []) (record { attempts = 1; expires_at = 900000000 })
      (omega arith) (omega arith, (omega arith, (omega arith, tt)))
