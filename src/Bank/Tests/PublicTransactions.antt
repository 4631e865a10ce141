-- ===== src/Bank/Tests/PublicTransactions.antt =====
-- Runs of the reservation of idempotency keys.
use sitbank.Bank.PublicTransaction.{
  PublicPayload, validate_public_transaction_payload, reserve_public_transaction_idempotency,
  take_reservation, new_reservation, public_transaction_hmac_keyring,
  public_transaction_idempotency_ttl_seconds, is_reservation_of, has_key_id, is_usable_key,
}
use sitbank.Base.{some, ◌≡◌, arith, ◌≢◌, refl, false}
use sitbank.Bank.PublicTransaction.Outcome.{
  public_run, validate_public_transaction_payload-once, validate_public_transaction_payload-Settled,
  KeyAccepted,
}
use sitbank.Bank.Store.{calls, ok, commit, ledger_fits, balance_fits}
use sitbank.Bank.Tests.{request, ann, Settled, bank}
use sitbank.Bank.PublicTransaction.Reserved.{public_view}
use sitbank.Bank.Request.{audit_banking_action, audit_event_required, event}

abbrev payload : PublicPayload
payload = record { idempotency_key = "key-1"; message = "payload:ten" }

abbrev other_payload : PublicPayload
other_payload = record { idempotency_key = "key-1"; message = "payload:eleven" }

-- What a validation runs through.
unfoldable validating : Unit {0}
unfolding calls validate_public_transaction_payload reserve_public_transaction_idempotency
    take_reservation public_transaction_hmac_keyring public_transaction_idempotency_ttl_seconds
    is_reservation_of new_reservation has_key_id audit_banking_action audit_event_required commit
    ledger_fits balance_fits event is_usable_key
validating = tt

validated : (public_run request (some ann) (some payload) false false bank).0 ≡ ok payload
unfolding validating
validated = refl

validate_public_transaction_payload-Settled_example :
    Settled public_view
      (λ x. x ≡ public_view bank)
      (KeyAccepted request (public_view bank) (some ann) (some payload) false false)
      (public_run request (some ann) (some payload) false false bank).0
      (public_run request (some ann) (some payload) false false bank).1
validate_public_transaction_payload-Settled_example =
    validate_public_transaction_payload-Settled request (some ann) (some payload) false false bank

validate_public_transaction_payload-once_example :
    (public_run request
      (some ann)
      (some other_payload)
      false
      false
      (public_run request (some ann) (some payload) false false bank).1.committed).0
    ≢ ok other_payload
unfolding validating
validate_public_transaction_payload-once_example =
    validate_public_transaction_payload-once request request (some ann) (some payload)
      (some other_payload) false false false false bank
      (public_run request (some ann) (some payload) false false bank).1.committed payload
      other_payload 3_600 payload other_payload validated refl refl refl refl (ground arith)
      (λ owner owned. refl) (λ owner owned. refl)
