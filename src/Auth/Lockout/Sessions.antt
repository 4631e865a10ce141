-- ===== src/Auth/Lockout/Sessions.antt =====
-- The sessions that a lock leaves.
use sitbank.Auth.Lockout.{
  revoke_all_sessions, is_active_session, is_stale_session, is_live, end_session_record,
  component_of,
}
use sitbank.Base.{
  List, false, refl, ℕ, [], inl, String, ◌≡◌, inr, ◌∷◌, ◌&&◌, str_eq, Bool-cases, if◌then◌else◌,
  ◌==◌, any, true, arith, Bool, ◌≢◌, ap, Option, ◌||◌, leb,
}
use sitbank.Auth.Rows.{ServerSideSession}

-- May a revocation end the row: is it the user's, and either in the component whose sessions are
-- ended or an expired one of the app's own component?
abbrev pub may_end : String → String → ℕ → ℕ → ServerSideSession → Bool
may_end current target user now r =
    r.user_id == user
    && (str_eq r.component target || (str_eq r.component current && leb r.expires_at now))

-- The rows that a revocation may not end.
abbrev pub spared : String → String → ℕ → ℕ → List ServerSideSession → List ServerSideSession
spared current target user now [] = []
spared current target user now (r ∷ rows) =
    let rest = spared current target user now rows in
    if may_end current target user now r then rest else r ∷ rest

module _ (current : String) (component : Option String) (reason : String) (user now : ℕ) where
  abbrev target : String
  target = component_of current component

  is_ours : ServerSideSession → Bool
  is_ours r = may_end current target user now r

  -- What the two updates do to one row.
  revoked_row : ServerSideSession → ServerSideSession
  revoked_row r =
      let r2 =
        if is_stale_session current user now r then end_session_record "expired" now r else r in
      if is_active_session target user now r2 then end_session_record reason now r2 else r2

  ended_inactive :
      (why : String) (r : ServerSideSession)
      → is_active_session target user now (end_session_record why now r) ≡ false
  unfolding is_active_session is_live end_session_record
  ended_inactive why r = ground arith

  record Revoked (r r2 : ServerSideSession) : Type 0 where
    inactive : is_active_session target user now r2 ≡ false
    owner : is_ours r2 ≡ is_ours r
    others : is_ours r ≡ false → r2 ≡ r

  owner_kept :
      (why : String) (x : ServerSideSession) → is_ours (end_session_record why now x) ≡ is_ours x
  unfolding is_ours end_session_record
  owner_kept why x = refl

  stale_ours :
      (x : ServerSideSession) → is_stale_session current user now x ≡ true → is_ours x ≢ false
  unfolding is_ours is_stale_session is_live
  stale_ours x h = ground arith

  active_ours :
      (x : ServerSideSession) → is_active_session target user now x ≡ true → is_ours x ≢ false
  unfolding is_ours is_active_session is_live
  active_ours x h = ground arith

  revoked_row-Revoked : (r : ServerSideSession) → Revoked r (revoked_row r)
  unfolding revoked_row
  revoked_row-Revoked r = elim (Bool-cases (is_stale_session current user now r)) [
    | inl stale ↦
        rw (stale, ended_inactive "expired" r)
          (record {
            inactive = ended_inactive "expired" r;
            owner = owner_kept "expired" r;
            others = λ h. absurd (stale_ours r stale h);
          })
    | inr fresh ↦ elim (Bool-cases (is_active_session target user now r)) [
      | inl active ↦
          rw (fresh, active)
            (record {
              inactive = ended_inactive reason r;
              owner = owner_kept reason r;
              others = λ h. absurd (active_ours r active h);
            })
      | inr idle ↦ rw (fresh, idle) (record { inactive = idle; owner = refl; others = λ h. refl })
    ]
  ]

  others_cons :
      (r r2 : ServerSideSession) (rows rows2 : List ServerSideSession)
      → Revoked r r2
      → spared current target user now rows2 ≡ spared current target user now rows
      → spared current target user now (r2 ∷ rows2) ≡ spared current target user now (r ∷ rows)
  unfolding is_ours
  others_cons r r2 rows rows2 row kept = elim (Bool-cases (is_ours r)) [
    | inl ours ↦ rw (row.owner, ours) kept
    | inr others ↦
        rw (row.owner, others, row.others others) (ap (λ (l : List ServerSideSession). r ∷ l) kept)
  ]

  -- After a revocation the user has no active session in the component that it was for, which is
  -- the app's own where none is given. As they were, and in their order, are the rows of other
  -- users, and of the user's those of other components that have not expired, with those of
  -- components that are neither this one nor the app's own.
  pub revoke_all_sessions_exact :
      (rows : List ServerSideSession)
      → (any
            (is_active_session (component_of current component) user now)
            (revoke_all_sessions current component reason user now rows)
          ≡ false)
        × (spared current
              (component_of current component)
              user
              now
              (revoke_all_sessions current component reason user now rows)
            ≡ spared current (component_of current component) user now rows)
  unfolding revoke_all_sessions revoked_row is_ours
  revoke_all_sessions_exact [] = (refl, refl)
  revoke_all_sessions_exact (r ∷ rows) =
      let (ended, kept) = revoke_all_sessions_exact rows in
      let row = revoked_row-Revoked r in
      (
        rw (row.inactive, ended) refl,
        others_cons r (revoked_row r) rows
            (revoke_all_sessions current component reason user now rows) row kept,
      )
