-- ===== src/Auth/Totp/Once.antt =====
-- No code is accepted twice.
use sitbank.Auth.Totp.{
  accepted_totp_step, replay_record, totp_replay_scope, valid, totp_valid_window,
}
use sitbank.Base.{refl, String, Bool, List, ◌≡◌, Option, ◌≢◌, true, ℕ, any, subst, false}
use sitbank.Bank.Request.{Request}
use sitbank.Bank.Types.{User}
use sitbank.Auth.Rows.{same_replay, TotpReplayRecord}
use sitbank.Bank.Store.{Db, ok}
use sitbank.Auth.Totp.Replay.{verify_run, verify_totp_secret_for_user_outcome-Proved}

-- The same key of the unique constraint, whatever the time of expiry.
same_key :
    (q1 q2 : Request) (user k : ℕ) (scope1 scope2 : String) (code : List ℕ) (w1 w2 : ℕ)
    (rows : List TotpReplayRecord)
    → totp_replay_scope scope2 ≡ totp_replay_scope scope1
    → ((scope : String) → q2.replay_digest user scope k code ≡ q1.replay_digest user scope k code)
    → any (same_replay (replay_record q2 user scope2 k code w2)) rows
      ≡ any (same_replay (replay_record q1 user scope1 k code w1)) rows
unfolding replay_record same_replay
same_key q1 q2 user k scope1 scope2 code w1 w2 rows s d = rw (s, d (totp_replay_scope scope1)) refl

module _ (q1 q2 : Request) (u : User) (secret : String) (code : List ℕ) (scope1 scope2 : String)
    (w1 w2 : Option ℕ) (b1 b2 : Bool) (d1 d2 : Db) where
  -- A code that was accepted for a user is not accepted again, under the same scope or another
  -- one that shares its replay scope, whatever the windows and the tracking of failures, when
  -- the second verification finds the same step, makes the same digests, and the records that
  -- the first one committed are still in the table.
  pub verify_totp_secret_for_user_outcome-once :
      (verify_run q1 u secret code scope1 w1 b1 d1).0 ≡ ok valid
      → ((r : TotpReplayRecord)
          → any
              (same_replay r)
              (verify_run q1 u secret code scope1 w1 b1 d1).1.committed.totp_replays
            ≡ true
          → any (same_replay r) d2.totp_replays ≡ true)
      → totp_replay_scope scope2 ≡ totp_replay_scope scope1
      → accepted_totp_step q2 secret code q2.unix_now (totp_valid_window q2 scope2 w2)
        ≡ accepted_totp_step q1 secret code q1.unix_now (totp_valid_window q1 scope1 w1)
      → ((k : ℕ) (scope : String)
          → q2.replay_digest u.id scope k code ≡ q1.replay_digest u.id scope k code)
      → (verify_run q2 u secret code scope2 w2 b2 d2).0 ≢ ok valid
  verify_totp_secret_for_user_outcome-once good kept scopes step digests again =
      let (k, e, stored) =
        verify_totp_secret_for_user_outcome-Proved q1 u secret code scope1 w1 b1 d1 good in
      let (k2, e2, stored2) =
        verify_totp_secret_for_user_outcome-Proved q2 u secret code scope2 w2 b2 d2 again in
      let same : k2 ≡ k = cc (e, e2, step) in
      let absent : any
            (same_replay (replay_record q2 u.id scope2 k code (totp_valid_window q2 scope2 w2)))
            d2.totp_replays
          ≡ false =
        subst
          (λ (n : ℕ).
            any (same_replay (replay_record q2 u.id scope2 n code (totp_valid_window q2 scope2 w2)))
              d2.totp_replays
            ≡ false)
          same stored2.0 in
      cc (
        absent,
        kept (replay_record q1 u.id scope1 k code (totp_valid_window q1 scope1 w1)) stored.1,
        same_key q1 q2 u.id k scope1 scope2 code (totp_valid_window q1 scope1 w1)
            (totp_valid_window q2 scope2 w2) d2.totp_replays scopes (digests k),
      )
