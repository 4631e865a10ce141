-- ===== src/Bank/Usage.antt =====
-- How much of the daily limits is used: `sgt_day_start_utc`, `local_transfer_amount_used_today`
-- and `payup_amount_used_today` of app/banking/services.py.
use sitbank.Base.{
  ℕ, ◌+◌, ◌-◌, ◌*◌, ◌/◌, Bool, List, ◌==◌, true, ◌∷◌, false, ◌&&◌, if◌then◌else◌, leb, [],
}
use sitbank.Bank.Types.{Instant, Cents, TransactionType, local_transfer, completed, Transaction}

-- `_SGT_OFFSET`, and midnight in Singapore as a UTC instant (`sgt_day_start_utc`). Within the
-- first sixteen hours of year 1 Python raises; there `-` stops at 0.
abbrev pub day : ℕ
day = 86_400_000_000

abbrev pub sgt_offset : ℕ
sgt_offset = 28_800_000_000

unfoldable pub sgt_day_start_utc : Instant → Instant
sgt_day_start_utc now = (now + sgt_offset) / day * day - sgt_offset

abbrev pub same_type : TransactionType → TransactionType → Bool
same_type local_transfer local_transfer = true
same_type TransactionType.payup TransactionType.payup = true
same_type TransactionType.topup TransactionType.topup = true
same_type _ _ = false

abbrev pub is_completed : Transaction → Bool
is_completed t = elim t.status [ completed ↦ true | _ ↦ false ]

-- `local_transfer_amount_used_today` and `payup_amount_used_today`
counts_today : TransactionType → ℕ → Instant → Transaction → Bool
counts_today ty user start t =
    (t.sender_id == user)
    && same_type t.transaction_type ty
    && is_completed t
    && leb start t.created_at

unfoldable pub amount_used_today : TransactionType → ℕ → Instant → List Transaction → Cents
unfolding counts_today
amount_used_today ty user start [] = 0
amount_used_today ty user start (t ∷ ts) =
    (if counts_today ty user start t then t.amount else 0) + amount_used_today ty user start ts
