-- ===== src/Security/AuditChain.antt =====
-- The hash chain of the audit table: `verify_audit_hash_chain` of app/security/audit.py, and the
-- fields by which `_audit_event` appends to it. Events are listed from the newest to the oldest.
pub mod Append
pub mod Legacy
pub mod Tamper
use sitbank.Base.{
  ℕ, ◌+◌, String, Bool, true, false, not, Option, none, some, List, [], ◌∷◌, ltb, length, str_eq,
  if◌then◌else◌, ◌≡◌,
}

-- The fields that are hashed, other than the previous hash: texts as they stand in the JSON.
pub record AuditContent : Type 0 where
  pub event_type : String
  pub outcome : String
  pub user_id : Option ℕ
  pub ip_address : String
  pub user_agent : String
  pub correlation_id : String
  pub session_ref : Option String
  pub event_metadata : String
  pub created_at : String

-- `AUDIT_HASH_ALGORITHM`, `LEGACY_AUDIT_HASH_ALGORITHM`, which an empty column means too, or
-- any other text.
pub data HashAlgorithm : Type 0 where
  hmac_sha256_v1 sha256_v1 unsupported : HashAlgorithm

pub record SecurityAuditEvent : Type 0 where
  pub id : ℕ
  pub content : AuditContent
  pub previous_event_hash : Option String
  pub event_hash : Option String
  pub hash_algorithm : HashAlgorithm

-- The texts and digests of the standard library: the canonical JSON of the hashed fields, the HMAC
-- under the configured key, none when the key is too short, and the plain digest. Texts
-- that are the same have the same previous hash, and a digest in hexadecimal is never empty.
pub record Hashing : Type 0 where
  pub dumps : AuditContent → Option String → String
  pub hmac_hex : String → Option String
  pub sha256_hex : String → String
  pub dumps_previous :
      (c d : AuditContent) (p r : String) → dumps c (some p) ≡ dumps d (some r) → p ≡ r
  pub hmac_nonempty : (t h : String) → hmac_hex t ≡ some h → str_eq h "" ≡ false
  pub sha256_nonempty : (t : String) → str_eq (sha256_hex t) "" ≡ false

pub data ChainErrorReason : Type 0 where
  missing_event_hash unsupported_hash_algorithm previous_hash_mismatch : ChainErrorReason
  hash_compute_failed event_hash_mismatch : ChainErrorReason

-- `AUDIT_CHAIN_START_HASH`
abbrev pub audit_chain_start_hash : String
audit_chain_start_hash = "0000000000000000000000000000000000000000000000000000000000000000"

-- The variables of the loop over the events.
pub record ChainState : Type 0 where
  pub previous_hash : String
  pub chain_started : Bool
  pub verified_event_count : ℕ
  pub legacy_unhashed_event_count : ℕ
  pub latest_event : Option (ℕ × String)
  pub errors : List (ℕ × ChainErrorReason)

abbrev pub chain_start : ChainState
chain_start = record {
  previous_hash = audit_chain_start_hash;
  chain_started = false;
  verified_event_count = 0;
  legacy_unhashed_event_count = 0;
  latest_event = none;
  errors = [];
}

-- `_append_chain_error`, which keeps twenty; the newest error stands first.
unfoldable pub append_chain_error :
    Bool → ℕ → ChainErrorReason → List (ℕ × ChainErrorReason) → List (ℕ × ChainErrorReason)
append_chain_error false i reason errors = errors
append_chain_error true i reason errors =
    if ltb (length errors) 20 then (i, reason) ∷ errors else errors

-- The text of a column that is set and not empty.
abbrev pub is_set : Option String → Option String
is_set none = none
is_set (some h) = if str_eq h "" then none else some h

unfoldable pub is_unsupported : HashAlgorithm → Bool
is_unsupported unsupported = true
is_unsupported _ = false

unfoldable pub is_hash : Option String → String → Bool
is_hash none h = false
is_hash (some p) h = str_eq p h

module _ (g : Hashing) where
  -- `_compute_audit_event_hash`; none is an exception.
  unfoldable pub compute_audit_event_hash :
      HashAlgorithm → AuditContent → Option String → Option String
  compute_audit_event_hash hmac_sha256_v1 c previous = g.hmac_hex (g.dumps c previous)
  compute_audit_event_hash sha256_v1 c previous = some (g.sha256_hex (g.dumps c previous))
  compute_audit_event_hash unsupported c previous = none

  unfoldable pub compare_hash :
      ℕ → Option String → String → List (ℕ × ChainErrorReason) → List (ℕ × ChainErrorReason)
  compare_hash i none h errors = append_chain_error true i hash_compute_failed errors
  compare_hash i (some expected) h errors =
      append_chain_error (not (str_eq h expected)) i event_hash_mismatch errors

  -- `_verify_hashed_audit_event`, of an event whose hash is `h`.
  unfoldable pub verify_hashed_audit_event :
      SecurityAuditEvent
      → String
      → String
      → List (ℕ × ChainErrorReason)
      → List (ℕ × ChainErrorReason)
  unfolding is_unsupported is_hash compare_hash
  verify_hashed_audit_event e h previous errors =
      compare_hash e.id (compute_audit_event_hash e.hash_algorithm e.content e.previous_event_hash)
        h
        (append_chain_error (not (is_hash e.previous_event_hash previous)) e.id
          previous_hash_mismatch
          (append_chain_error (is_unsupported e.hash_algorithm) e.id unsupported_hash_algorithm
            errors))

  -- One turn of the loop, by the event's hash if it has one.
  unfoldable pub verify_event : SecurityAuditEvent → Option String → ChainState → ChainState
  verify_event e none st = record st {
    legacy_unhashed_event_count =
        if st.chain_started
        then st.legacy_unhashed_event_count
        else st.legacy_unhashed_event_count + 1;
    errors = append_chain_error st.chain_started e.id missing_event_hash st.errors;
  }
  verify_event e (some h) st = record st {
    previous_hash = h;
    chain_started = true;
    verified_event_count = st.verified_event_count + 1;
    latest_event = some (e.id, h);
    errors = verify_hashed_audit_event e h st.previous_hash st.errors;
  }

  -- The loop of `verify_audit_hash_chain`.
  unfoldable pub verify_audit_hash_chain : List SecurityAuditEvent → ChainState
  verify_audit_hash_chain [] = chain_start
  verify_audit_hash_chain (e ∷ older) =
      let st = verify_audit_hash_chain older in verify_event e (is_set e.event_hash) st

  -- `_latest_audit_event_hash`: the newest hash that is not null, or the start when it is empty.
  unfoldable pub latest_audit_event_hash : List SecurityAuditEvent → String
  latest_audit_event_hash [] = audit_chain_start_hash
  latest_audit_event_hash (e ∷ older) =
      let rest = latest_audit_event_hash older in
      elim e.event_hash [ none ↦ rest | some h ↦ if str_eq h "" then audit_chain_start_hash else h ]

  -- The event that `_audit_event` adds; none when its hash cannot be computed.
  unfoldable pub append_audit_event :
      ℕ → AuditContent → List SecurityAuditEvent → Option (List SecurityAuditEvent)
  append_audit_event i c events =
      let previous = some (latest_audit_event_hash events) in
      elim (compute_audit_event_hash hmac_sha256_v1 c previous) [
        | none ↦ none
        | some h ↦ some (
            record {
              id = i;
              content = c;
              previous_event_hash = previous;
              event_hash = some h;
              hash_algorithm = hmac_sha256_v1;
            }
            ∷ events)
      ]
