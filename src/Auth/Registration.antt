-- ===== src/Auth/Registration.antt =====
-- Registration codes: app/auth/registration_otp.py. The policy's answer (`require_customer_email`),
-- whether the address has an account, and the HMACs are arguments; audit rows, which cannot fail a
-- call, are left out. Every write of the table is followed by its commit, and so done at once.
pub mod Sending
pub mod Current
pub mod Attempts
pub mod Verified
pub mod Tests
use sitbank.Base.{
  Bool, ◌∷◌, ℕ, List, String, [], Option, some, not, ◌&&◌, str_eq, none, ◌+◌, if◌then◌else◌,
  is_none, leb, find, update_where,
}
use sitbank.Security.RateLimits.{Counter}
use sitbank.Bank.Types.{Instant}

abbrev pub registration_otp_ttl_seconds : ℕ
registration_otp_ttl_seconds = 300

abbrev pub registration_otp_resend_cooldown_seconds : ℕ
registration_otp_resend_cooldown_seconds = 60

abbrev pub registration_otp_max_attempts : ℕ
registration_otp_max_attempts = 5

abbrev second : ℕ
second = 1_000_000

pub record RegistrationOtpChallenge : Type 0 where
  pub session_binding_hash : String
  pub email_hash : String
  pub otp_hmac : String
  pub attempt_count : ℕ
  pub resend_available_at : Instant
  pub expires_at : Instant
  pub used_at : Option Instant
  pub updated_at : Instant

-- The registration's keys of the Flask session, and its id; a key that is missing is empty.
pub record RegistrationSession : Type 0 where
  pub sid : String
  pub session_ref : String
  pub pending_email : String
  pub verified_email : String
  pub verified_at : ℕ

-- The table, the counters of the durable limit by principal, and the browser's session.
pub record Registration : Type 0 where
  pub challenges : List RegistrationOtpChallenge
  pub counters : String → Counter
  pub keys : RegistrationSession

-- `active_hmac_hex` of a session reference, of an address, and of an address and a code; stripping
-- a code; `normalize_registration_email`; does the policy accept an address.
pub record RegistrationHmac : Type 0 where
  pub session_hash : String → String
  pub email_hash : String → String
  pub otp_hmac : String → String → String
  pub strip : String → String
  pub normalize : String → String
  pub is_allowed : String → Bool

-- What one call reads: the clock, a new reference and code, the principal that the limit counts,
-- and whether the mail leaves.
pub record OtpCall : Type 0 where
  pub principal : String
  pub limited_at : Instant
  pub now : Instant
  pub loaded_at : Instant
  pub unix_now : ℕ
  pub new_ref : String
  pub new_code : String
  pub mail_ok : Bool

pub data OtpMessage : Type 0 where
  generic_otp_sent email_verified : OtpMessage
  generic_otp_error generic_registration_email_error : OtpMessage
  wait_before_another wait_a_moment could_not_send : OtpMessage

-- What a call returns, or raises with a status code and when to retry.
pub data OtpResult : Type 0 where
  returned : OtpMessage → OtpResult
  raised : OtpMessage → ℕ → Option ℕ → OtpResult

abbrev pub remove_where {ℓ} : {A : Type ℓ} → (A → Bool) → List A → List A
remove_where p [] = []
remove_where p (x ∷ xs) = let rest = remove_where p xs in if p x then rest else x ∷ rest

-- `_session_reference(create_session_binding=True)`: a new reference where there is none.
unfoldable pub bind_session : OtpCall → RegistrationSession → RegistrationSession
bind_session e k = if str_eq k.session_ref "" then record k { session_ref = e.new_ref } else k

-- `_session_reference`
unfoldable pub session_reference : RegistrationSession → String
session_reference k =
    if not (str_eq k.session_ref "")
    then k.session_ref
    else if str_eq k.sid ""
    then "anonymous"
    else k.sid

-- `_clear_registration_progress_state`
unfoldable pub clear_registration_progress_state : RegistrationSession → RegistrationSession
clear_registration_progress_state k = record k {
  pending_email = "";
  verified_email = "";
  verified_at = 0;
}

unfoldable pub clear_registration_session_state : RegistrationSession → RegistrationSession
unfolding clear_registration_progress_state
clear_registration_session_state k = record (clear_registration_progress_state k) {
  session_ref = "";
}

module _ (h : RegistrationHmac) where
  -- The query of `_load_otp_challenge`; session and address are unique together.
  unfoldable pub is_challenge_of : RegistrationSession → String → RegistrationOtpChallenge → Bool
  unfolding session_reference
  is_challenge_of k email c =
      str_eq c.session_binding_hash (h.session_hash (session_reference k))
      && str_eq c.email_hash (h.email_hash email)
      && is_none c.used_at

  unfoldable pub delete_challenge : String → Registration → Registration
  unfolding is_challenge_of
  delete_challenge email s = record s {
    challenges = remove_where (is_challenge_of s.keys email) s.challenges;
  }

  unfoldable pub drop_expired :
      OtpCall
      → String
      → Registration
      → Option RegistrationOtpChallenge
      → Option RegistrationOtpChallenge × Registration
  unfolding delete_challenge
  drop_expired e email s none = (none, s)
  drop_expired e email s (some c) =
      if leb c.expires_at e.loaded_at then (none, delete_challenge email s) else (some c, s)

  -- `_load_otp_challenge`
  unfoldable pub load_otp_challenge :
      OtpCall → String → Registration → Option RegistrationOtpChallenge × Registration
  unfolding drop_expired is_challenge_of
  load_otp_challenge e email s =
      drop_expired e email s (find (is_challenge_of s.keys email) s.challenges)

  -- A wrong code: the challenge goes with the fifth.
  unfoldable pub count_attempt :
      OtpCall → String → RegistrationOtpChallenge → Registration → Registration
  unfolding delete_challenge is_challenge_of
  count_attempt e email c s =
      if leb registration_otp_max_attempts (c.attempt_count + 1)
      then delete_challenge email s
      else record s {
        challenges =
            update_where (is_challenge_of s.keys email)
              (λ r. record r { attempt_count = c.attempt_count + 1; updated_at = e.now })
              s.challenges;
      }

  unfoldable pub set_verified : OtpCall → String → RegistrationSession → RegistrationSession
  set_verified e email k = record k {
    verified_email = email;
    verified_at = e.unix_now;
    pending_email = "";
  }

  unfoldable pub on_verified : OtpCall → String → Registration → Registration
  unfolding set_verified
  on_verified e email s = record s { keys = set_verified e email s.keys }

  unfoldable pub answer_code :
      OtpCall
      → String
      → String
      → Option RegistrationOtpChallenge × Registration
      → OtpResult × Registration
  unfolding count_attempt on_verified delete_challenge
  answer_code e email code (none, s) = (raised generic_otp_error 400 none, s)
  answer_code e email code (some c, s) =
      if str_eq c.otp_hmac (h.otp_hmac email (h.strip code))
      then (returned email_verified, on_verified e email (delete_challenge email s))
      else (raised generic_otp_error 400 none, count_attempt e email c s)

  -- `verify_registration_otp`; `accepted` is the address as `require_customer_email` returns it.
  unfoldable pub verify_registration_otp :
      OtpCall → Option String → String → Registration → OtpResult × Registration
  unfolding answer_code load_otp_challenge
  verify_registration_otp e none code s = (raised generic_otp_error 400 none, s)
  verify_registration_otp e (some email) code s =
      answer_code e email code (load_otp_challenge e email s)
