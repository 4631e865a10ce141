-- ===== src/Bank/Risk/Policy.antt =====
-- The PayUp policy as a table of conditions.
use sitbank.Base.{◌≡◌, ◌+◌, some, List, ◌≤◌, false, ◌↔◌, ◌<◌, ℕ, true, arith, ltb, none, Option}
use sitbank.Bank.Types.{User, Cents, AuditEvent}
use sitbank.Bank.Request.{Request}
use sitbank.Bank.Risk.{
  evaluate_payup_risk, PayupRiskDecision, has_recent_payup_sensitive_event, allow, blocks,
  requires_step_up,
}

abbrev pub IsFresh : Option ℕ → ℕ → Type 0
IsFresh none max_age = ⊥
IsFresh (some age) max_age = age ≤ max_age

module _ (q : Request) (u : User) (amount used : Cents) (audit : List AuditEvent) where
  -- Under a configuration and a state that can be read, an enabled account with a second factor,
  -- in a stable and recent session, with no recent sensitive event, whose daily limit covers what was sent today and the amount.
  pub record Eligible : Type 0 where
    pub configured : q.payup_settings_valid ≡ true
    pub readable : q.payup_state_readable ≡ true
    pub positive : 0 < amount
    pub limited : 0 < u.payup_daily_limit
    pub caps : (0 < q.payup_quick_transfer_cap) × (0 < q.payup_quick_daily_cap)
    pub enabled : u.payup_enabled ≡ true
    pub enrolled : u.mfa_enabled ≡ true
    pub stable : q.session_is_stable ≡ true
    pub fresh : IsFresh q.session_age_seconds q.payup_quick_session_max_age_seconds
    pub within_limit : used + amount ≤ u.payup_daily_limit
    pub quiet :
        has_recent_payup_sensitive_event u.id q.day_now q.payup_sensitive_event_cooldown_seconds
          audit
        ≡ false

  abbrev pub decision : PayupRiskDecision
  decision = evaluate_payup_risk q u amount used audit

  pub within_limit-of-risk :
      blocks decision ≡ false → ltb u.payup_daily_limit (used + amount) ≡ false
  unfolding evaluate_payup_risk
  within_limit-of-risk h = ground arith

  pub within_caps-of-risk :
      blocks decision ≡ false
      → requires_step_up decision ≡ false
      → (amount ≤ q.payup_quick_transfer_cap) × (used + amount ≤ q.payup_quick_daily_cap)
  unfolding evaluate_payup_risk
  within_caps-of-risk passes quick = ground arith

  pub Eligible-of-unblocked : blocks decision ≡ false → Eligible
  unfolding evaluate_payup_risk
  Eligible-of-unblocked h = ground arith

  pub unblocked-of-Eligible : Eligible → blocks decision ≡ false
  unfolding evaluate_payup_risk
  unblocked-of-Eligible e = ground arith

  -- The policy decides to allow a PayUp transfer without a code exactly when its settings and the
  -- state that it reads are available, the sender is eligible and neither quick cap is passed.
  pub allow_iff : (decision ≡ allow) ↔ (
      Eligible × (amount ≤ q.payup_quick_transfer_cap) × (used + amount ≤ q.payup_quick_daily_cap))
  unfolding evaluate_payup_risk
  allow_iff = (λ h. ground arith, λ h. ground arith)
