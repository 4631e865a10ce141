-- ===== src/Auth/Registration/Current.antt =====
-- The address that a browser session has verified: app/auth/registration_otp.py.
use sitbank.Base.{str_eq, not, ◌||◌, String, none, some, Bool, Option, ◌-◌, if◌then◌else◌, ltb}
use sitbank.Auth.Registration.{
  RegistrationHmac, OtpCall, clear_registration_session_state, RegistrationSession,
  registration_otp_ttl_seconds,
}

module _ (h : RegistrationHmac) where
  -- The address of the session when it may not be used any more.
  unfoldable pub is_stale : OtpCall → RegistrationSession → Bool
  is_stale e k =
      not (h.is_allowed (h.normalize k.verified_email))
      || ltb registration_otp_ttl_seconds (e.unix_now - k.verified_at)

  -- `current_verified_registration_email`
  unfoldable pub current_verified_registration_email :
      OtpCall → RegistrationSession → Option String × RegistrationSession
  unfolding is_stale clear_registration_session_state
  current_verified_registration_email e k =
      if str_eq (h.normalize k.verified_email) ""
      then (none, k)
      else if is_stale e k
      then (none, clear_registration_session_state k)
      else (some (h.normalize k.verified_email), k)

  unfoldable pub same_verified : String → Option String → Option String
  same_verified email none = none
  same_verified email (some verified) = if str_eq verified email then some email else none

  -- `require_verified_registration_email`; none is the error that asks to verify the address.
  unfoldable pub require_verified_registration_email :
      OtpCall → Option String → RegistrationSession → Option String × RegistrationSession
  unfolding current_verified_registration_email same_verified
  require_verified_registration_email e none k = (none, k)
  require_verified_registration_email e (some email) k =
      let current = current_verified_registration_email e k in
      (same_verified email current.0, current.1)

  -- `consume_verified_registration_email`
  unfoldable pub consume_verified_registration_email :
      String → RegistrationSession → RegistrationSession
  unfolding clear_registration_session_state
  consume_verified_registration_email email k =
      if str_eq (h.normalize k.verified_email) (h.normalize email)
      then clear_registration_session_state k
      else k
