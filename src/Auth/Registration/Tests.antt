-- ===== src/Auth/Registration/Tests.antt =====
-- Runs of a registration.
use sitbank.Base.{
  ◌≡◌, true, some, ◌∷◌, [], ◌-◌, String, ℕ, none, ◌*◌, refl, false, List, ltb, if◌then◌else◌,
}
use sitbank.Auth.Registration.{
  RegistrationHmac, OtpCall, Registration, verify_registration_otp, returned, raised, wait_a_moment,
  email_verified, generic_otp_sent, generic_otp_error, bind_session, load_otp_challenge,
  drop_expired, delete_challenge, is_challenge_of, session_reference,
  clear_registration_progress_state, answer_code, count_attempt, on_verified, set_verified,
}
use sitbank.Auth.Registration.Sending.{
  fresh_challenge, put_challenge, request_registration_otp, request_limited, set_counter,
  request_code, bind_new, send_code, cooldown_left, clear_progress, mail_code, set_pending,
}
use sitbank.Auth.Registration.Attempts.{
  try_codes, verify_registration_otp-once, verify_registration_otp-locks,
}
use sitbank.Security.RateLimits.{
  consume_durable_rate_limit, load_or_create_counter, load_counter, new_counter,
}
use sitbank.Auth.Registration.Verified.{request_registration_otp-verify}
use sitbank.Auth.Registration.Current.{current_verified_registration_email}

abbrev hmac : RegistrationHmac
hmac = record {
  session_hash = λ r. r;
  email_hash = λ a. a;
  otp_hmac = λ a code. code;
  strip = λ code. code;
  normalize = λ a. a;
  is_allowed = λ a. true;
}

abbrev call_at : ℕ → OtpCall
call_at seconds = record {
  principal = "10.0.0.1:ann@example.org";
  limited_at = seconds * 1_000_000;
  now = seconds * 1_000_000;
  loaded_at = seconds * 1_000_000;
  unix_now = seconds;
  new_ref = "ref";
  new_code = "123456";
  mail_ok = true;
}

abbrev address : String
address = "ann@example.org"

abbrev empty : Registration
empty = record {
  challenges = [];
  counters = λ p. none;
  keys = record {
    sid = "";
    session_ref = "";
    pending_email = "";
    verified_email = "";
    verified_at = 0;
  };
}

-- What a registration runs through.
unfoldable registering : Unit {0}
unfolding request_registration_otp request_limited set_counter request_code bind_new bind_session
    load_otp_challenge drop_expired delete_challenge is_challenge_of session_reference send_code
    cooldown_left put_challenge fresh_challenge clear_progress clear_registration_progress_state
    mail_code set_pending verify_registration_otp answer_code count_attempt on_verified set_verified
    consume_durable_rate_limit load_or_create_counter load_counter new_counter
registering = tt

abbrev requested : Registration
requested = (request_registration_otp hmac (call_at 1000) (λ a. false) (some address) empty).1

sent_run :
    (request_registration_otp hmac (call_at 1000) (λ a. false) (some address) empty).0
    ≡ returned generic_otp_sent
unfolding registering
sent_run = refl

cooldown_run :
    (request_registration_otp hmac (call_at 1010) (λ a. false) (some address) requested).0
    ≡ raised wait_a_moment 429 (some 50)
unfolding registering
cooldown_run = refl

verified_run :
    (verify_registration_otp hmac (call_at 1100) (some address) "123456" requested).0
    ≡ returned email_verified
unfolding registering
verified_run = refl

request_registration_otp-verify_example :
    ((verify_registration_otp hmac (call_at 1100) (some address) "123456" requested).0
      ≡ returned email_verified)
    × ((current_verified_registration_email hmac
          (call_at 1200)
          (verify_registration_otp hmac (call_at 1100) (some address) "123456" requested).1.keys).0
        ≡ (if ltb 300 (1200 - 1100) then none else some address))
request_registration_otp-verify_example =
    request_registration_otp-verify hmac address (call_at 1000) (call_at 1100) (call_at 1200)
      (λ a. false) empty refl sent_run refl refl refl refl refl

verify_registration_otp-once_example :
    (verify_registration_otp hmac
      (call_at 1101)
      (some address)
      "123456"
      (verify_registration_otp hmac (call_at 1100) (some address) "123456" requested).1).0
    ≡ raised generic_otp_error 400 none
verify_registration_otp-once_example =
    verify_registration_otp-once hmac address (call_at 1100) (call_at 1101) "123456" "123456"
      requested verified_run

abbrev guess : OtpCall × String
guess = (call_at 1100, "000000")

abbrev guesses : List (OtpCall × String)
guesses = guess ∷ guess ∷ guess ∷ guess ∷ guess ∷ []

verify_registration_otp-locks_example :
    (verify_registration_otp hmac
      (call_at 1200)
      (some address)
      "123456"
      (try_codes hmac address guesses requested)).0
    ≡ raised generic_otp_error 400 none
unfolding registering
verify_registration_otp-locks_example =
    verify_registration_otp-locks hmac address
      (fresh_challenge hmac (call_at 1000) address requested.keys) guesses (call_at 1200) "123456"
      requested refl (refl, (refl, (refl, (refl, (refl, tt))))) refl
