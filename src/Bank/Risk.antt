-- ===== src/Bank/Risk.antt =====
-- `evaluate_payup_risk` and `_has_recent_payup_sensitive_event` of app/banking/services.py.
pub mod Policy
use sitbank.Base.{
  ℕ, Bool, List, false, true, any, ◌==◌, ◌&&◌, if◌then◌else◌, leb, ◌||◌, ◌∷◌, ltb, ◌+◌, [], not,
  ◌*◌, none, some,
}
use sitbank.Bank.Types.{
  User, Instant, requested, Outcome, UpdatedFields, EventType, Reason, Cents, AuditEvent,
  profile_update, success, none_of_these, quick_daily_cap, approved, completed,
  manual_recovery_completed, risk_state_invalid, quick_transfer_cap, verified,
  manual_recovery_requested, daily_limit_exceeded, mfa_replace_start, mfa_replace_verify,
  stale_session, payup_disabled, password_change, recent_sensitive_event, mfa_not_enrolled,
  password_reset_completed, session_risk, recovery_codes_generated, recovery_codes_regenerate,
  session_state_unavailable, risk_state_unavailable,
}
use sitbank.Bank.Request.{Request}

-- `PayupRiskDecision`: its decision, with the reasons.
pub data PayupRiskDecision : Type 0 where
  allow : PayupRiskDecision
  step_up : List Reason → PayupRiskDecision
  block : Reason → PayupRiskDecision

abbrev pub blocks : PayupRiskDecision → Bool
blocks (block reason) = true
blocks _ = false

abbrev pub requires_step_up : PayupRiskDecision → Bool
requires_step_up (step_up reasons) = true
requires_step_up _ = false

-- `_PAYUP_SENSITIVE_EVENT_TYPES` with a sensitive outcome, or a successful change of the mail
-- address or the phone number.
sensitive_outcome : Outcome → Bool
sensitive_outcome approved = true
sensitive_outcome completed = true
sensitive_outcome requested = true
sensitive_outcome success = true
sensitive_outcome verified = true
sensitive_outcome _ = false

is_success : Outcome → Bool
is_success success = true
is_success _ = false

names_contact_field : UpdatedFields → Bool
names_contact_field none_of_these = false
names_contact_field _ = true

is_sensitive : EventType → Outcome → Bool
unfolding sensitive_outcome is_success names_contact_field
is_sensitive manual_recovery_completed o = sensitive_outcome o
is_sensitive manual_recovery_requested o = sensitive_outcome o
is_sensitive mfa_replace_start o = sensitive_outcome o
is_sensitive mfa_replace_verify o = sensitive_outcome o
is_sensitive password_change o = sensitive_outcome o
is_sensitive password_reset_completed o = sensitive_outcome o
is_sensitive recovery_codes_generated o = sensitive_outcome o
is_sensitive recovery_codes_regenerate o = sensitive_outcome o
is_sensitive (profile_update fields) o = is_success o && names_contact_field fields
is_sensitive _ o = false

-- `created_at >= now - cooldown`, written without a subtraction.
is_recent_sensitive : ℕ → Instant → ℕ → AuditEvent → Bool
unfolding is_sensitive
is_recent_sensitive user now cooldown e =
    (e.user_id == user)
    && leb now (e.created_at + cooldown * 1_000_000)
    && is_sensitive e.event_type e.outcome

unfoldable pub has_recent_payup_sensitive_event : ℕ → Instant → ℕ → List AuditEvent → Bool
unfolding is_recent_sensitive
has_recent_payup_sensitive_event user now cooldown = any (is_recent_sensitive user now cooldown)

-- The last two tests of the policy, on an amount that may go through: the reasons, sorted.
step_up_reasons : Bool → Bool → PayupRiskDecision
step_up_reasons true true = step_up (quick_daily_cap ∷ quick_transfer_cap ∷ [])
step_up_reasons true false = step_up (quick_transfer_cap ∷ [])
step_up_reasons false true = step_up (quick_daily_cap ∷ [])
step_up_reasons false false = allow

module _ (q : Request) where
  -- The tests that follow `session_age is None`.
  judge_session : User → Cents → Cents → Bool → ℕ → PayupRiskDecision
  unfolding step_up_reasons
  judge_session u amount used recent age =
      if ltb u.payup_daily_limit (used + amount)
      then block daily_limit_exceeded
      else if ltb q.payup_quick_session_max_age_seconds age
      then block stale_session
      else if recent
      then block recent_sensitive_event
      else step_up_reasons (ltb q.payup_quick_transfer_cap amount)
          (ltb q.payup_quick_daily_cap (used + amount))

  -- `evaluate_payup_risk(user, amount, used_today=used)`, on the audit rows of the transaction.
  unfoldable pub evaluate_payup_risk : User → Cents → Cents → List AuditEvent → PayupRiskDecision
  unfolding judge_session
  evaluate_payup_risk u amount used audit =
      let recent =
        has_recent_payup_sensitive_event u.id q.day_now q.payup_sensitive_event_cooldown_seconds
          audit in
      if not (q.payup_settings_valid && q.payup_state_readable)
      then block risk_state_unavailable
      else if (amount == 0)
          || (u.payup_daily_limit == 0)
          || (q.payup_quick_transfer_cap == 0)
          || (q.payup_quick_daily_cap == 0)
      then block risk_state_invalid
      else if not u.payup_enabled
      then block payup_disabled
      else if not u.mfa_enabled
      then block mfa_not_enrolled
      else if not q.session_is_stable
      then block session_risk
      else elim q.session_age_seconds [
        | none ↦ block session_state_unavailable
        | some age ↦ judge_session u amount used recent age
      ]
