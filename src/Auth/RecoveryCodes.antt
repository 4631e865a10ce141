-- ===== src/Auth/RecoveryCodes.antt =====
-- Recovery codes: app/auth/recovery_codes.py.
pub mod Single
pub mod Generated
pub mod Usable
pub mod Tests
use sitbank.Base.{
  ℕ, zero, suc, ◌%◌, String, Bool, true, false, ◌&&◌, ◌||◌, Option, none, some, List, [], ◌∷◌, find,
  update_where, leb, ltb, ◌==◌, str_eq, is_none, if◌then◌else◌,
}
use sitbank.Bank.Types.{User, value_error, recovery_codes_generated, success}
use sitbank.Bank.Store.{Db, Action, pure, raise, when, gets, modify, commit, rollback, ◌>>=◌, ◌>>◌}
use sitbank.Bank.Request.{Request, audit_event, event}
use sitbank.Auth.Rows.{RecoveryCode}

abbrev pub recovery_code_low_threshold : ℕ
recovery_code_low_threshold = 2

-- `_new_recovery_code` of a token: a dash before each group of eight but the first; `i` characters
-- came before.
unfoldable pub group_by_eight : ℕ → List ℕ → List ℕ
group_by_eight i [] = []
group_by_eight i (c ∷ cs) =
    let rest = group_by_eight (suc i) cs in
    if ltb 0 i && i % 8 == 0 then 45 ∷ c ∷ rest else c ∷ rest

-- The codes made of `n` tokens, of which `token` gives the i-th that `secrets.token_hex` draws.
unfoldable pub new_recovery_codes : (ℕ → List ℕ) → ℕ → ℕ → List (List ℕ)
unfolding group_by_eight
new_recovery_codes token i zero = []
new_recovery_codes token i (suc n) = group_by_eight 0 (token i) ∷ new_recovery_codes token (suc i) n

-- An unused code of the user for the purpose.
unfoldable pub is_unused : ℕ → String → RecoveryCode → Bool
is_unused user purpose r = r.user_id == user && str_eq r.purpose purpose && is_none r.used_at

unfoldable pub mark_used : ℕ → RecoveryCode → RecoveryCode
mark_used now r = record r { used_at = some now }

unfoldable pub on_recovery_codes : (List RecoveryCode → List RecoveryCode) → Db → Db
on_recovery_codes f d = record d { recovery_codes = f d.recovery_codes }

unfoldable pub keep_alnum : (ℕ → Bool) → List ℕ → List ℕ
keep_alnum p [] = []
keep_alnum p (c ∷ cs) = let rest = keep_alnum p cs in if p c then c ∷ rest else rest

unfoldable pub count_where : (RecoveryCode → Bool) → List RecoveryCode → ℕ
count_where p [] = 0
count_where p (r ∷ rows) = let rest = count_where p rows in if p r then suc rest else rest

-- The rows that `unused_recovery_code_count` counts.
unfoldable pub is_countable : ℕ → String → RecoveryCode → Bool
unfolding is_unused
is_countable user purpose r = is_unused user purpose r && leb 2 r.hmac_version

-- `unused_recovery_code_count`
unfoldable pub unused_recovery_code_count : ℕ → String → Db → ℕ
unfolding count_where is_countable
unused_recovery_code_count user purpose d = count_where (is_countable user purpose) d.recovery_codes

-- `recovery_code_count_is_low`
unfoldable pub recovery_code_count_is_low : ℕ → String → Db → Bool
unfolding unused_recovery_code_count
recovery_code_count_is_low user purpose d =
    leb (unused_recovery_code_count user purpose d) recovery_code_low_threshold

module _ (q : Request) where
  -- `_normalize_recovery_code`
  unfoldable pub normalize_recovery_code : List ℕ → List ℕ
  unfolding keep_alnum
  normalize_recovery_code code = keep_alnum q.is_alnum (q.casefold code)

  -- `_recovery_code_hmac`
  unfoldable pub recovery_code_hmac : ℕ → String → List ℕ → String
  unfolding normalize_recovery_code
  recovery_code_hmac user purpose code = q.recovery_hmac user purpose (normalize_recovery_code code)

  unfoldable pub new_row : ℕ → String → List ℕ → RecoveryCode
  unfolding recovery_code_hmac
  new_row user purpose code = record {
    user_id = user;
    code_hmac = recovery_code_hmac user purpose code;
    hmac_version = 2;
    purpose = purpose;
    used_at = none;
  }

  unfoldable pub add_rows : ℕ → String → List (List ℕ) → List RecoveryCode → List RecoveryCode
  unfolding new_row
  add_rows user purpose [] rows = rows
  add_rows user purpose (c ∷ codes) rows =
      add_rows user purpose codes (new_row user purpose c ∷ rows)

  -- What `generate_recovery_codes_for_user` makes of the table.
  unfoldable pub replace_codes : ℕ → String → List (List ℕ) → List RecoveryCode → List RecoveryCode
  unfolding add_rows is_unused mark_used
  replace_codes user purpose codes rows =
      add_rows user purpose codes (update_where (is_unused user purpose) (mark_used q.now) rows)

  -- `generate_recovery_codes_for_user`, of tokens that collide with no stored code.
  unfoldable pub generate_recovery_codes_for_user :
      User → (ℕ → List ℕ) → ℕ → String → Bool → Bool → Action (List (List ℕ))
  unfolding new_recovery_codes replace_codes on_recovery_codes
  generate_recovery_codes_for_user u token count purpose commits audits = do
    when (ltb count 1 || ltb 20 count) (raise value_error)
    modify (on_recovery_codes (replace_codes u.id purpose (new_recovery_codes token 0 count)))
    when commits (do
      commit
      when audits (audit_event q (event q recovery_codes_generated success u.id none)))
    pure (new_recovery_codes token 0 count)

  -- The query of `consume_recovery_code`.
  unfoldable pub is_match : ℕ → String → List ℕ → RecoveryCode → Bool
  unfolding is_countable recovery_code_hmac
  is_match user purpose code r =
      is_countable user purpose r && str_eq r.code_hmac (recovery_code_hmac user purpose code)

  -- By whether the query finds a row.
  unfoldable pub answer_match : ℕ → String → List ℕ → Bool → Option RecoveryCode → Action Bool
  unfolding is_match mark_used on_recovery_codes
  answer_match user purpose code commits none = do when commits rollback; pure false
  answer_match user purpose code commits (some r) = do
    modify (on_recovery_codes (update_where (is_match user purpose code) (mark_used q.now)))
    when commits commit
    pure true

  -- `consume_recovery_code`
  unfoldable pub consume_recovery_code : User → List ℕ → String → Bool → Action Bool
  unfolding answer_match
  consume_recovery_code u code purpose commits = do
    rows ← gets (λ (d : Db). d.recovery_codes)
    answer_match u.id purpose code commits (find (is_match u.id purpose code) rows)
