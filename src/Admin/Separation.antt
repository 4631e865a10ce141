-- ===== src/Admin/Separation.antt =====
-- Staff act on no customer account of their own: app/admin/separation.py.
pub mod Decision
pub mod Tests
use sitbank.Base.{
  true, none, str_eq, false, Bool, not, ◌||◌, ◌&&◌, some, Option, ℕ, is_none, ◌==◌, any,
}
use sitbank.Bank.Types.{
  AccountType, User, PersonIdentityLink, customer, Reason, missing_identity, actor_not_staff,
  staff_self_customer_action_blocked, target_not_customer, blocked, auth, explicit_identity_link,
  verified_email_overlap,
}
use sitbank.Bank.Request.{Request, audit_event, event}
use sitbank.Bank.Store.{Action, ◌>>◌, when, ◌>>=◌, gets, raise, Db}

-- `STAFF_ACCOUNT_TYPES` of app/admin/services.py
unfoldable pub is_staff : AccountType → Bool
is_staff customer = false
is_staff _ = true

actor_id : Option User → ℕ
actor_id none = 0
actor_id (some u) = u.id

unfoldable pub is_active_link : ℕ → ℕ → PersonIdentityLink → Bool
is_active_link staff_user customer_user l =
    l.staff_user_id == staff_user && l.customer_user_id == customer_user && is_none l.revoked_at

module _ (q : Request) where
  -- `_block`
  unfoldable pub block_action : Option User → Reason → Action (Unit {0})
  unfolding actor_id
  block_action actor reason = do
    audit_event q
        (event q staff_self_customer_action_blocked blocked (actor_id actor) (some reason))
    raise (auth 403 reason)

  -- Does the customer's address stand among the actor's?
  unfoldable pub emails_overlap : User → User → Bool
  emails_overlap actor target =
      let address = q.normalized_email target.email in
      not (str_eq address "")
      && (str_eq address (q.normalized_email actor.email)
          || str_eq address (q.normalized_email actor.staff_personal_email))

  -- `assert_not_self_customer_action`; the action's type is only logged.
  unfoldable pub assert_not_self_customer_action : Option User → Option User → Action (Unit {0})
  unfolding block_action is_staff is_active_link emails_overlap
  assert_not_self_customer_action none target = block_action none missing_identity
  assert_not_self_customer_action (some actor) none = block_action (some actor) missing_identity
  assert_not_self_customer_action (some actor) (some target) = do
    when (not (is_staff actor.account_type)) (block_action (some actor) actor_not_staff)
    when (is_staff target.account_type) (block_action (some actor) target_not_customer)
    links ← gets (λ (d : Db). d.identity_links)
    when (any (is_active_link actor.id target.id) links)
        (block_action (some actor) explicit_identity_link)
    when (emails_overlap actor target) (block_action (some actor) verified_email_overlap)
