-- ===== src/Admin/Separation/Tests.antt =====
-- Runs of the separation of staff and customers.
use sitbank.Bank.Tests.{bank, request, ann, ben}
use sitbank.Base.{some, [], none, ◌∷◌, ◌≡◌, ◌⊎◌, refl}
use sitbank.Bank.Types.{User, staff, auth, explicit_identity_link}
use sitbank.Bank.Store.{calls, Db, begin, ok, ledger_fits, balance_fits, err}
use sitbank.Admin.Separation.Decision.{Apart, Blocked, assert_not_self_customer_action-Apart}
use sitbank.Admin.Separation.{
  assert_not_self_customer_action, is_staff, is_active_link, block_action, emails_overlap,
}
use sitbank.Bank.Request.{audit_event}

abbrev clerk : User
clerk = record ann { id = 9; account_type = staff; email = "clerk@bank.example" }

abbrev linked : Db
linked = record bank {
  identity_links = record { staff_user_id = 9; customer_user_id = 2; revoked_at = none } ∷ [];
}

allowed_run :
    (assert_not_self_customer_action request (some clerk) (some ann) (begin linked)).0 ≡ ok tt
unfolding calls assert_not_self_customer_action is_staff is_active_link emails_overlap
allowed_run = refl

linked_run :
    (assert_not_self_customer_action request (some clerk) (some ben) (begin linked)).0
    ≡ err (auth 403 explicit_identity_link)
unfolding calls assert_not_self_customer_action is_staff is_active_link block_action audit_event
    ledger_fits balance_fits
linked_run = refl

assert_not_self_customer_action-Apart_example :
    (Apart request clerk ben linked.identity_links
      × (assert_not_self_customer_action request (some clerk) (some ben) (begin linked)
          ≡ (ok tt, begin linked)))
    ⊎ ((Apart request clerk ben linked.identity_links → ⊥)
        × Blocked (assert_not_self_customer_action request (some clerk) (some ben) (begin linked)))
assert_not_self_customer_action-Apart_example =
    assert_not_self_customer_action-Apart request clerk ben (begin linked)
