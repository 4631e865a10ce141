-- ===== src/Auth/Registration/Verified.antt =====
-- A requested code verifies the address.
use sitbank.Base.{
  eq_iff, inr, List, ◌∷◌, str_eq, [], String, inl, ◌*◌, Option, ◌≡◌, some, true, refl, none, ◌+◌,
  Bool-cases, find, update_where, ◌-◌, Bool, false, if◌then◌else◌, leb, ltb, Option-cases,
}
use sitbank.Auth.Registration.{
  RegistrationHmac, OtpCall, RegistrationSession, is_challenge_of, Registration,
  RegistrationOtpChallenge, session_reference, registration_otp_ttl_seconds, second,
  load_otp_challenge, returned, verify_registration_otp, drop_expired, delete_challenge,
  generic_otp_sent, answer_code, clear_registration_progress_state, on_verified, set_verified,
  email_verified, OtpResult,
}
use sitbank.Auth.Registration.Sending.{
  put_challenge, fresh_challenge, request_registration_otp, request_limited, request_code, bind_new,
  send_code, cooldown_left, clear_progress, mail_code, set_pending,
}
use sitbank.Security.RateLimits.{limit_exceeded, Limited, counted}
use sitbank.Auth.Registration.Attempts.{challenge_of, find-remove}
use sitbank.Auth.Registration.Current.{is_stale, current_verified_registration_email}

if-cases : {A : Type 0} (P : A → Type 0) (b : Bool) (x y : A) → P x → P y → P (if b then x else y)
if-cases P true x y px py = px
if-cases P false x y px py = py

module _ (h : RegistrationHmac) (email : String) where
  -- The challenge that a call sent out, not used yet.
  record Sent (e : OtpCall) (s : Registration) : Type 0 where
    pub row : RegistrationOtpChallenge
    pub found : challenge_of h email s ≡ some row
    pub code : row.otp_hmac ≡ h.otp_hmac email e.new_code
    pub expires : row.expires_at ≡ e.now + registration_otp_ttl_seconds * second

  same_key :
      (e : OtpCall) (k : RegistrationSession)
      → is_challenge_of h k email (fresh_challenge h e email k) ≡ true
  unfolding is_challenge_of fresh_challenge
  same_key e k =
      let a : str_eq (h.session_hash (session_reference k)) (h.session_hash (session_reference k))
          ≡ true =
        (eq_iff _ _).1 refl in
      let b : str_eq (h.email_hash email) (h.email_hash email) ≡ true = (eq_iff _ _).1 refl in
      rw (a, b) refl

  find-replaced :
      (k : RegistrationSession) (e : OtpCall) (rows : List RegistrationOtpChallenge)
      (c : RegistrationOtpChallenge)
      → find (is_challenge_of h k email) rows ≡ some c
      → find
          (is_challenge_of h k email)
          (update_where (is_challenge_of h k email) (λ r. fresh_challenge h e email k) rows)
        ≡ some (fresh_challenge h e email k)
  find-replaced k e [] c found = cc
  find-replaced k e (x ∷ rows) c found = elim (Bool-cases (is_challenge_of h k email x)) [
    | inl hit ↦ rw (hit, same_key e k) refl
    | inr miss ↦ rw (miss, miss) (find-replaced k e rows c (rw miss at found))
  ]

  put_challenge-Sent :
      (e : OtpCall) (c : Option RegistrationOtpChallenge) (s : Registration)
      → challenge_of h email s ≡ c
      → Sent e (put_challenge h e email c s)
  unfolding put_challenge
  put_challenge-Sent e none s found = record {
    row = fresh_challenge h e email s.keys;
    found = rw (same_key e s.keys) refl;
    code = refl;
    expires = refl;
  }
  put_challenge-Sent e (some c) s found = record {
    row = fresh_challenge h e email s.keys;
    found = find-replaced s.keys e s.challenges c found;
    code = refl;
    expires = refl;
  }

  -- Neither the progress nor the pending address is part of the key.
  pending-Sent :
      (e : OtpCall) (s : Registration)
      → Sent e s
      → Sent e (record s { keys = set_pending h email s.keys })
  unfolding is_challenge_of session_reference set_pending
  pending-Sent e s sent = record {
    row = sent.row;
    found = sent.found;
    code = sent.code;
    expires = sent.expires;
  }

  mail_code-Sent :
      (e : OtpCall) (s : Registration)
      → Sent e s
      → (mail_code h e email s).0 ≡ returned generic_otp_sent
      → Sent e (mail_code h e email s).1
  unfolding mail_code
  mail_code-Sent e s sent =
      if-cases {A = OtpResult × Registration} (λ r. r.0 ≡ returned generic_otp_sent → Sent e r.1)
        e.mail_ok _ _ (λ good. pending-Sent e s sent) (λ good. cc)

  send_code-Sent :
      (e : OtpCall) (c : Option RegistrationOtpChallenge) (s : Registration)
      → challenge_of h email s ≡ c
      → (send_code h e email (c, s)).0 ≡ returned generic_otp_sent
      → Sent e (send_code h e email (c, s)).1
  unfolding send_code clear_progress is_challenge_of session_reference
      clear_registration_progress_state
  send_code-Sent e c s found good = elim (Bool-cases (ltb 0 (cooldown_left h e c))) [
    | inl early ↦ absurd (cc (rw early at good))
    | inr due ↦
        rw due
          (mail_code-Sent e _ (put_challenge-Sent e c (clear_progress h s) found) (rw due at good))
  ]

  -- What is loaded is what the table holds then.
  load_otp_challenge-challenge :
      (e : OtpCall) (s : Registration)
      → challenge_of h email (load_otp_challenge h e email s).1 ≡ (load_otp_challenge h e email s).0
  unfolding load_otp_challenge drop_expired delete_challenge
  load_otp_challenge-challenge e s = elim (Option-cases (challenge_of h email s)) [
    | inl absent ↦ rw absent absent
    | inr (c, found) ↦ elim (Bool-cases (leb c.expires_at e.loaded_at)) [
      | inl late ↦ rw (found, late) (find-remove (is_challenge_of h s.keys email) s.challenges)
      | inr live ↦ rw (found, live) found
    ]
  ]

  request_code-Sent :
      (e : OtpCall) (user_exists : String → Bool) (s : Registration)
      → user_exists email ≡ false
      → (request_code h e user_exists (some email) s).0 ≡ returned generic_otp_sent
      → Sent e (request_code h e user_exists (some email) s).1
  unfolding request_code
  request_code-Sent e user_exists s new good =
      let loaded = load_otp_challenge-challenge e (bind_new h e s) in
      rw new (send_code-Sent e _ _ loaded (rw new at good))

  request_limited-Sent :
      (e : OtpCall) (user_exists : String → Bool) (s : Registration) (r : Limited)
      → user_exists email ≡ false
      → (request_limited h e user_exists (some email) s r).0 ≡ returned generic_otp_sent
      → Sent e (request_limited h e user_exists (some email) s r).1
  unfolding request_limited
  request_limited-Sent e user_exists s (limit_exceeded n) new good = cc
  request_limited-Sent e user_exists s (counted n) new good =
      request_code-Sent e user_exists s new good
  request_limited-Sent e user_exists s _ new good = request_code-Sent e user_exists s new good

  verify-Sent :
      (e1 e2 : OtpCall) (s : Registration)
      → Sent e1 s
      → h.strip e1.new_code ≡ e1.new_code
      → leb (e1.now + registration_otp_ttl_seconds * second) e2.loaded_at ≡ false
      → ((verify_registration_otp h e2 (some email) e1.new_code s).0 ≡ returned email_verified)
        × ((verify_registration_otp h e2 (some email) e1.new_code s).1.keys
            ≡ set_verified h e2 email s.keys)
  unfolding verify_registration_otp load_otp_challenge drop_expired answer_code on_verified
      delete_challenge
  verify-Sent e1 e2 s sent plain early =
      let live : leb sent.row.expires_at e2.loaded_at ≡ false = rw sent.expires early in
      let right : str_eq sent.row.otp_hmac (h.otp_hmac email (h.strip e1.new_code)) ≡ true =
        rw (sent.code, plain) ((eq_iff _ _).1 refl) in
      rw (sent.found, live, right) (refl, refl)

  current-verified :
      (e2 e3 : OtpCall) (k : RegistrationSession)
      → h.normalize email ≡ email
      → str_eq email "" ≡ false
      → h.is_allowed email ≡ true
      → (current_verified_registration_email h e3 (set_verified h e2 email k)).0 ≡ (
          if ltb registration_otp_ttl_seconds (e3.unix_now - e2.unix_now) then none else some email)
  unfolding current_verified_registration_email is_stale set_verified
  current-verified e2 e3 k normal full allowed =
      rw (normal, full, allowed)
        (elim (Bool-cases (ltb registration_otp_ttl_seconds (e3.unix_now - e2.unix_now))) [
          | inl old ↦ rw old refl
          | inr fresh ↦ rw fresh refl
        ])

  -- A requested code, tried on the same browser before it expires, verifies the address, which
  -- then counts as verified for as long as it was to, five minutes: `email` is an address that
  -- `require_customer_email` returns and that has no account, and the code has no blanks.
  pub request_registration_otp-verify :
      (e1 e2 e3 : OtpCall) (user_exists : String → Bool) (s : Registration)
      → user_exists email ≡ false
      → (request_registration_otp h e1 user_exists (some email) s).0 ≡ returned generic_otp_sent
      → h.strip e1.new_code ≡ e1.new_code
      → leb (e1.now + registration_otp_ttl_seconds * second) e2.loaded_at ≡ false
      → h.normalize email ≡ email
      → str_eq email "" ≡ false
      → h.is_allowed email ≡ true
      → ((verify_registration_otp h e2
            (some email)
            e1.new_code
            (request_registration_otp h e1 user_exists (some email) s).1).0
          ≡ returned email_verified)
        × ((current_verified_registration_email h e3
              (verify_registration_otp h e2
                (some email)
                e1.new_code
                (request_registration_otp h e1 user_exists (some email) s).1).1.keys).0
            ≡ (if ltb registration_otp_ttl_seconds (e3.unix_now - e2.unix_now)
                then none
                else some email))
  unfolding request_registration_otp
  request_registration_otp-verify e1 e2 e3 user_exists s new good plain early normal full allowed =
      let sent = request_limited-Sent e1 user_exists _ _ new good in
      let (answer, keys) = verify-Sent e1 e2 _ sent plain early in
      (answer, rw keys (current-verified e2 e3 _ normal full allowed))
