-- ===== src/Auth/Registration/Sending.antt =====
-- `request_registration_otp` of app/auth/registration_otp.py.
use sitbank.Base.{
  Option, ◌-◌, some, str_eq, String, ℕ, ◌+◌, none, ◌∷◌, ◌/◌, Bool, ◌*◌, ltb, if◌then◌else◌,
  update_where,
}
use sitbank.Auth.Registration.{
  RegistrationHmac, is_challenge_of, RegistrationSession, delete_challenge, OtpCall,
  session_reference, bind_session, clear_registration_progress_state, load_otp_challenge,
  RegistrationOtpChallenge, Registration, OtpResult, second,
  registration_otp_resend_cooldown_seconds, returned, raised, registration_otp_ttl_seconds,
  wait_a_moment, wait_before_another, generic_otp_sent, generic_registration_email_error,
  could_not_send,
}
use sitbank.Security.RateLimits.{Counter, Limited, limit_exceeded, consume_durable_rate_limit}

module _ (h : RegistrationHmac) where
  unfoldable pub fresh_challenge : OtpCall → String → RegistrationSession → RegistrationOtpChallenge
  unfolding session_reference
  fresh_challenge e email k = record {
    session_binding_hash = h.session_hash (session_reference k);
    email_hash = h.email_hash email;
    otp_hmac = h.otp_hmac email e.new_code;
    attempt_count = 0;
    resend_available_at = e.now + registration_otp_resend_cooldown_seconds * second;
    expires_at = e.now + registration_otp_ttl_seconds * second;
    used_at = none;
    updated_at = e.now;
  }

  -- The challenge starts over, or is added.
  unfoldable pub put_challenge :
      OtpCall → String → Option RegistrationOtpChallenge → Registration → Registration
  unfolding fresh_challenge is_challenge_of
  put_challenge e email none s = record s {
    challenges = fresh_challenge e email s.keys ∷ s.challenges;
  }
  put_challenge e email (some c) s = record s {
    challenges =
        update_where (is_challenge_of h s.keys email) (λ r. fresh_challenge e email s.keys)
          s.challenges;
  }

  unfoldable pub clear_progress : Registration → Registration
  unfolding clear_registration_progress_state
  clear_progress s = record s { keys = clear_registration_progress_state s.keys }

  unfoldable pub set_pending : String → RegistrationSession → RegistrationSession
  set_pending email k = record k { pending_email = email }

  -- The mail, and what its failure takes back.
  unfoldable pub mail_code : OtpCall → String → Registration → OtpResult × Registration
  unfolding clear_progress delete_challenge set_pending
  mail_code e email s =
      if e.mail_ok
      then (returned generic_otp_sent, record s { keys = set_pending email s.keys })
      else (raised could_not_send 503 none, clear_progress (delete_challenge h email s))

  -- `int((resend_available_at - now).total_seconds())`, where it is positive.
  unfoldable pub cooldown_left : OtpCall → Option RegistrationOtpChallenge → ℕ
  cooldown_left e none = 0
  cooldown_left e (some c) = (c.resend_available_at - e.now) / second

  unfoldable pub send_code :
      OtpCall → String → Option RegistrationOtpChallenge × Registration → OtpResult × Registration
  unfolding mail_code put_challenge clear_progress cooldown_left
  send_code e email (challenge, s) =
      if ltb 0 (cooldown_left e challenge)
      then (raised wait_a_moment 429 (some (cooldown_left e challenge)), s)
      else mail_code e email (put_challenge e email challenge (clear_progress s))

  unfoldable pub bind_new : OtpCall → Registration → Registration
  unfolding bind_session
  bind_new e s = record s { keys = bind_session e s.keys }

  unfoldable pub request_code :
      OtpCall → (String → Bool) → Option String → Registration → OtpResult × Registration
  unfolding send_code load_otp_challenge bind_new
  request_code e user_exists none s = (raised generic_registration_email_error 400 none, s)
  request_code e user_exists (some email) s =
      if user_exists email
      then (returned generic_otp_sent, s)
      else send_code e email (load_otp_challenge h e email (bind_new e s))

  unfoldable pub set_counter : String → Counter → Registration → Registration
  set_counter principal c s = record s {
    counters = λ p. if str_eq p principal then c else s.counters p;
  }

  -- By what the durable limit answers.
  unfoldable pub request_limited :
      OtpCall → (String → Bool) → Option String → Registration → Limited → OtpResult × Registration
  unfolding request_code
  request_limited e user_exists accepted s (limit_exceeded n) =
      (raised wait_before_another 429 (some n), s)
  request_limited e user_exists accepted s _ = request_code e user_exists accepted s

  -- `request_registration_otp`
  unfoldable pub request_registration_otp :
      OtpCall → (String → Bool) → Option String → Registration → OtpResult × Registration
  unfolding request_limited set_counter
  request_registration_otp e user_exists accepted s =
      let limited = consume_durable_rate_limit 10 3600 e.limited_at (s.counters e.principal) in
      request_limited e user_exists accepted (set_counter e.principal limited.1 s) limited.0
