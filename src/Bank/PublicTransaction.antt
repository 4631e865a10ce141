-- ===== src/Bank/PublicTransaction.antt =====
-- The reservation of idempotency keys for public transactions:
-- `validate_public_transaction_payload` of app/banking/services.py and what it calls.
pub mod Reserved
pub mod Replay
pub mod Outcome
use sitbank.Base.{
  ℕ, ◌+◌, ◌*◌, String, Bool, true, false, not, ◌&&◌, ◌||◌, Option, none, some, List, ◌∷◌, ltb, leb,
  ◌==◌, str_eq, any, all, find, update_where, if◌then◌else◌,
}
use sitbank.Bank.Types.{
  User, Error, auth, audit_write_error, integrity_error, Reason, failure, blocked, success,
  PublicTransactionIdempotency, reserved, key_message, payload_message,
  public_transaction_validation, authenticated_scope_required, pending_database_state_rejected,
  schema_validation_failed, non_durable_store_rejected, idempotency_hmac_key_unavailable,
  idempotency_key_verifier_invalid, same_payload_replay_blocked, idempotency_payload_conflict,
  public_transaction_unavailable,
}
use sitbank.Bank.Store.{
  Db, Action, pure, raise, when, gets, modify, or_else, catch, rollback, find_user, ◌>>=◌, ◌>>◌,
}
use sitbank.Bank.Request.{Request, audit_banking_action}

-- What the schema loads: the key, and the canonical text of amount, currency and payee.
pub record PublicPayload : Type 0 where
  pub idempotency_key : String
  pub message : String

-- The id of nobody, for an audit row without a user.
user_id_of : Option User → ℕ
user_id_of none = 0
user_id_of (some u) = u.id

unfoldable pub has_key_id : String → List (String × ℕ) → Bool
has_key_id k keys = any (λ entry. str_eq entry.0 k) keys

unfoldable pub is_reservation_of : ℕ → String → PublicTransactionIdempotency → Bool
is_reservation_of user fingerprint r = r.user_id == user && str_eq r.key_fingerprint fingerprint

pub unavailable : {A : Type 0} → Action A
unavailable = raise (auth 503 public_transaction_unavailable)

-- `except (AuditWriteError, SQLAlchemyError)` of the success audit.
unfoldable pub on_success_audit_error : Error → Action (Unit {0})
unfolding unavailable
on_success_audit_error audit_write_error = do rollback; unavailable
on_success_audit_error integrity_error = do rollback; unavailable
on_success_audit_error e = raise e

module _ (q : Request) where
  -- The key's id is not blank, and the key has 32 bytes.
  unfoldable pub is_usable_key : String × ℕ → Bool
  is_usable_key entry = not (str_eq (q.strip entry.0) "") && entry.1 == 32

  -- `_public_transaction_hmac_keyring`
  unfoldable pub public_transaction_hmac_keyring : Option (List (String × ℕ))
  unfolding is_usable_key has_key_id
  public_transaction_hmac_keyring = elim q.ledger_hmac_keys [
    | none ↦ none
    | some keys ↦
        if has_key_id q.ledger_hmac_active_key_id keys && all is_usable_key keys
        then some keys
        else none
  ]

  -- `_public_transaction_idempotency_ttl_seconds`
  unfoldable pub public_transaction_idempotency_ttl_seconds : Option ℕ
  public_transaction_idempotency_ttl_seconds = elim q.public_transaction_ttl_seconds [
    | none ↦ none
    | some ttl ↦ if ltb ttl 60 || ltb (7 * 24 * 60 * 60) ttl then none else some ttl
  ]

  unfoldable pub new_reservation : ℕ → PublicPayload → ℕ → PublicTransactionIdempotency
  new_reservation user p ttl = record {
    user_id = user;
    hmac_key_id = q.ledger_hmac_active_key_id;
    key_fingerprint = q.public_key_fingerprint user p.idempotency_key;
    key_verifier = q.public_hmac q.ledger_hmac_active_key_id (key_message p.idempotency_key);
    payload_verifier = q.public_hmac q.ledger_hmac_active_key_id (payload_message p.message);
    status = reserved;
    result_reference = none;
    created_at = q.now;
    updated_at = q.now;
    expires_at = q.now + ttl * 1_000_000;
  }

  -- `_audit_public_idempotency_failure`, and the error that every caller raises after it.
  unfoldable pub fail_public : {A : Type 0} → Option User → ℕ → Reason → Reason → Action A
  unfolding user_id_of
  fail_public user code answer reason = do
    rollback
    audit_banking_action q false public_transaction_validation blocked (user_id_of user)
        (some reason)
    raise (auth code answer)

  -- The answer to a key in use, by whether the payload is the same.
  unfoldable pub answer_payload : {A : Type 0} → User → Bool → Action A
  unfolding fail_public
  answer_payload u true =
      fail_public (some u) 409 same_payload_replay_blocked same_payload_replay_blocked
  answer_payload u false =
      fail_public (some u) 409 idempotency_payload_conflict idempotency_payload_conflict

  -- `_reuse_or_reject_public_transaction_reservation` of a row that has not expired.
  unfoldable pub reject_reservation :
      {A : Type 0} → User → PublicPayload → PublicTransactionIdempotency → Action A
  unfolding unavailable fail_public public_transaction_hmac_keyring has_key_id answer_payload
  reject_reservation u p r = do
    keys ← or_else public_transaction_hmac_keyring unavailable
    when (not (has_key_id r.hmac_key_id keys))
        (fail_public (some u) 503 public_transaction_unavailable idempotency_hmac_key_unavailable)
    when (not (str_eq r.key_verifier (q.public_hmac r.hmac_key_id (key_message p.idempotency_key))))
        (fail_public (some u) 503 public_transaction_unavailable idempotency_key_verifier_invalid)
    answer_payload u
        (str_eq r.payload_verifier (q.public_hmac r.hmac_key_id (payload_message p.message)))

  -- A row that exists is taken over when it has expired, or rejected; otherwise a new row is
  -- inserted.
  unfoldable pub take_reservation :
      User → PublicPayload → ℕ → Option PublicTransactionIdempotency → Action (Unit {0})
  unfolding new_reservation reject_reservation is_reservation_of
  take_reservation u p ttl none = do
    modify (λ d. record d { reservations = new_reservation u.id p ttl ∷ d.reservations })
    pure tt
  take_reservation u p ttl (some r) =
      if leb r.expires_at q.now
      then (do
        modify (λ d. record d {
          reservations =
              update_where
                (is_reservation_of u.id (q.public_key_fingerprint u.id p.idempotency_key))
                (λ x. new_reservation u.id p ttl) d.reservations;
        })
        pure tt)
      else reject_reservation u p r

  -- `_reserve_public_transaction_idempotency`
  unfoldable pub reserve_public_transaction_idempotency :
      Option User → PublicPayload → Action (Unit {0})
  unfolding unavailable fail_public public_transaction_hmac_keyring
      public_transaction_idempotency_ttl_seconds is_reservation_of take_reservation
  reserve_public_transaction_idempotency user p = do
    users ← gets (λ (d : Db). d.ledger.users)
    u ←
        or_else user
          (fail_public user 503 public_transaction_unavailable authenticated_scope_required)
    or_else (find_user u.id users)
        (fail_public user 503 public_transaction_unavailable authenticated_scope_required)
    ttl ← or_else public_transaction_idempotency_ttl_seconds unavailable
    or_else public_transaction_hmac_keyring unavailable
    rows ← gets (λ (d : Db). d.reservations)
    take_reservation u p ttl
        (find (is_reservation_of u.id (q.public_key_fingerprint u.id p.idempotency_key)) rows)

  -- `validate_public_transaction_payload` inside an application context: the schema's result, none
  -- for a `ValidationError`; whether the session has pending changes; whether a store is given.
  unfoldable pub validate_public_transaction_payload :
      Option User → Option PublicPayload → Bool → Bool → Action PublicPayload
  unfolding unavailable fail_public public_transaction_hmac_keyring user_id_of
      reserve_public_transaction_idempotency on_success_audit_error
  validate_public_transaction_payload user loaded pending_state store_given = do
    when pending_state
        (fail_public user 503 public_transaction_unavailable pending_database_state_rejected)
    p ← or_else loaded (do
      audit_banking_action q false public_transaction_validation failure (user_id_of user)
          (some schema_validation_failed)
      raise (auth 400 schema_validation_failed))
    or_else public_transaction_hmac_keyring unavailable
    when store_given
        (fail_public user 503 public_transaction_unavailable non_durable_store_rejected)
    reserve_public_transaction_idempotency user p
    catch (audit_banking_action q true public_transaction_validation success (user_id_of user) none)
        on_success_audit_error
    pure p
