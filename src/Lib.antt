-- ===== src/Lib.antt =====
-- SITBank: the banking core of a Flask application (app/). A customer moves money in two steps:
-- a route stores a pending transfer with a confirmation token, and a service executes it under
-- row locks. This development models the services that execute, what they check, what they
-- write and what a failure leaves in the tables, with top-ups, the second factor and the lockout
-- of accounts, the durable rate limits and the audit chain.
--
-- The parts and their files
--   Base                 the library's names, Boolean tests, list functions, signed cents (ℤ)
--   Bank/Types           the rows of app/models.py and the values that the services raise
--   Bank/Store           the tables, and one request's unit of work: the committed tables and what
--                        the open transaction sees, with commit, rollback, raise and try/except
--   Bank/Request         the clock's readings, token HMACs, references, signature, the answers of
--                        the audit table and the mail server, and the configuration, as one record;
--                        the audit, freeze and mail helpers of app/banking/services.py and
--                        `_audit_event` of app/security/audit.py
--   Bank/Usage           `sgt_day_start_utc` and what was sent since the day began
--   Bank/Transfer        what both kinds of transfer share (amount, locks, double entry, success
--                        audit, last steps); Entry: the specification `Transferred`;
--                        Conservation: what follows from it; Pending: consumed confirmations;
--                        Keeps and Runs: the rules for the shared steps
--   Bank/Local           `execute_local_transfer` of app/banking/services.py
--   Bank/Risk            `evaluate_payup_risk`; Policy: the decision as a table of conditions
--   Bank/Payup           `execute_payup_transfer`; Steps and Accounting: what it keeps and commits
--   Bank/TopUp           `generate_topup_token`, `load_topup_request_for_approval`,
--                        `credit_account_topup` and the handler `topup_approve_submit`; Steps,
--                        Accounting, Outcome and Token: its proofs
--   Bank/PublicTransaction  `validate_public_transaction_payload` of app/banking/services.py and the
--                        reservation of its idempotency key; Reserved and Outcome: what is
--                        committed; Replay: how a key in use is answered
--   Bank/Money           ids and balances: what a ledger says of money
--   Bank/History         sequences of requests, as a step relation; Books: what stays true
--   Bank/Rules           rules for calls, over a view of the tables; Steps: single steps; Runs: steps
--                        that return; Handlers: try blocks; Open: calls that keep both sides safe; Lands and
--                        Ensures: what a call that returns has committed
--   Bank/Tests           a bank of two users, runs and witnesses; Payups: of PayUp;
--                        TopUps: of top-ups; PublicTransactions: of the reservations
--   Auth/Rows            the rows of counters, replay records and sessions in app/models.py; Counters:
--                        what the table finds
--   Auth/Throttle        the durable rate limits on the table of counters, and
--                        `_enforce_auth_backoff` of app/auth/services.py
--   Auth/Lockout         `_record_user_security_failure`, `_lock_user_account` and
--                        `revoke_all_sessions` of app/security/sessions.py; Step and Threshold: how
--                        failures add up; Sessions: what a revocation leaves
--   Auth/Totp            `_verify_totp_secret_for_user_outcome`; Steps: which step is accepted;
--                        Replay and Once: records of accepted codes; Waits: the backoff;
--                        SecondFactor: what top-ups rely on
--   Auth/RecoveryCodes   app/auth/recovery_codes.py; Single: what an accepted code leaves; Generated
--                        and Usable: new codes in place of the old; Tests: their runs
--   Auth/Registration    app/auth/registration_otp.py: the table of challenges and the browser's session;
--                        Sending: requests; Current: the verified address; Attempts: wrong and used
--                        codes; Verified: from request to verified address; Tests: their runs
--   Auth/Keeps, Tests    what these calls leave alone; their runs and witnesses
--   Admin/Separation     app/admin/separation.py; Decision: who may act on whom; Tests: its runs
--   Security/RateLimits  the durable counters of app/security/rate_limits.py; Window: how many
--                        attempts are granted; Backoff: how long a principal waits
--   Security/AuditChain  `verify_audit_hash_chain` and the append of app/security/audit.py; Append:
--                        what an append keeps; Tamper: chains with one end; Legacy: what the
--                        legacy digest lets through
--   Security/Tests       their runs and witnesses; Chain: of the audit chain
--
-- How the state corresponds
-- A service is a function from a session to a result and a session. A session holds the committed
-- tables and the working tables of the open transaction (Flask-SQLAlchemy's `db.session`). A
-- raised exception keeps what was written so far in the open transaction, as Python does; a
-- commit first tests the column bounds of models.py (balance below 10^10 dollars, positive amount,
-- unique reference) and rolls back when they fail. `audit_event` commits or rolls back the whole
-- transaction and swallows its failure; `audit_event_required` only flushes and raises.
-- Money is whole cents in ℕ, the caps of the PayUp policy included; every subtraction stands
-- behind the source's test that it does not go below zero. A stored pending amount has five decimals and may be negative or NaN.
-- Timestamps are microseconds. All functions are total: no fuel is used.
--
-- What is assumed and not modelled
-- Requests run one after the other: the row locks of `_lock_transfer_participants` serialise what
-- touches the same rows, and a locked row is read as it is committed. The e-mail texts, audit
-- metadata other than the reason, forms and the other HTTP routes are left out. HMAC, UUIDs, the clock,
-- the audit table's and the mail server's answers are arguments (`Request`).
-- The TOTP check of an approval is a record (`SecondFactor`), which Auth/Totp/SecondFactor fills:
-- when it answers it leaves the ledger and the requests alone, when it raises it may have locked
-- the user but has moved no money. A route's early answer is an error that carries its status code.
-- JSON texts and digests of the audit chain are arguments (`Hashing`); its anchor is not modelled.
-- Of sign-in, the second factor, its backoff and the lockout are modelled, on counters whose
-- principal is the user; pyotp's codes, the decryption of the secret, Unicode's digits and the
-- HMACs are arguments. The tokens of recovery codes are taken to collide with no stored code, whose
-- HMAC column is unique. Of a registration the codes are modelled, on a state of
-- their own: each write is committed at once. Statements, enrolment, the account that a
-- registration makes, and administration but for the separation of staff and customers are not
-- modelled.
pub mod Admin
pub mod Auth
pub mod Bank
pub mod Base
pub mod Security
