-- ===== src/Bank/Transfer/Pending.antt =====
-- A pending transfer that has been consumed is found no more.
use sitbank.Base.{
  ◌≡◌, ◌∷◌, some, true, String, List, none, sym, arith, refl, inr, inl, eq_iff, ◌∙◌, [], false,
  Bool, str_eq, Bool-cases, if◌then◌else◌, find,
}
use sitbank.Bank.Types.{PendingTransfer, Instant}
use sitbank.Bank.Transfer.{consume, set_consumed_ref, update_pending}

-- A test of a query that wants the token and a row that is not consumed.
pub record IsQuery (token : String) (p : PendingTransfer → Bool) : Type 0 where
  pub wants_token : (r : PendingTransfer) → p r ≡ true → r.token ≡ token
  pub wants_open : (r : PendingTransfer) (at : Instant) → r.consumed_at ≡ some at → p r ≡ false

module _ (token : String) (now : Instant) (ref : String) (p : PendingTransfer → Bool)
    (is : IsQuery token p) where
  abbrev mark : PendingTransfer → PendingTransfer
  mark r = if str_eq r.token token then set_consumed_ref ref (consume now r) else r

  mark-closed : (r : PendingTransfer) → p (mark r) ≡ false
  unfolding consume set_consumed_ref
  mark-closed r = elim (Bool-cases (str_eq r.token token)) [
    | inl same ↦ rw same (is.wants_open (set_consumed_ref ref (consume now r)) now refl)
    | inr other ↦ rw other (elim (Bool-cases (p r)) [
      | inl open_row ↦ cc (sym other ∙ (eq_iff r.token token).1 (is.wants_token r open_row))
      | inr closed ↦ closed
    ])
  ]

  pub find-consumed :
      (rows : List PendingTransfer)
      → find p
          (update_pending token (set_consumed_ref ref) (update_pending token (consume now) rows))
        ≡ none
  unfolding consume set_consumed_ref
  find-consumed [] = refl
  find-consumed (r ∷ rows) = ground (arith, mark-closed r, find-consumed rows)
