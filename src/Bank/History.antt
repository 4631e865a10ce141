-- ===== src/Bank/History.antt =====
-- Sequences of requests: every one runs on the tables that the ones before it have committed.
pub mod Books
use sitbank.Base.{ℕ, Bool, List, String}
use sitbank.Bank.Types.{User, Payee, Cents}
use sitbank.Bank.Store.{Db, begin}
use sitbank.Bank.Request.{Request}
use sitbank.Bank.Local.{execute_local_transfer}
use sitbank.Bank.Payup.{execute_payup_transfer}
use sitbank.Bank.TopUp.{SecondFactor, approve_token, generate_topup_token}

-- The tables before and after one request; a request that fails is one too.
infix 40 ◌⟶◌ ◌⟶*◌
pub data ◌⟶◌ : Db → Db → Type 0 where
  local_transfer_request :
      (q : Request) (sender : User) (payee : Payee) (token : String) (d : Db)
      → d ⟶ (execute_local_transfer q sender payee token (begin d)).1.committed
  payup_transfer_request :
      (q : Request) (sender : User) (token : String) (authorized : Bool) (d : Db)
      → d ⟶ (execute_payup_transfer q sender token authorized (begin d)).1.committed
  topup_request :
      (q : Request) (selector verifier : List ℕ) (user : ℕ) (amount : Cents) (d : Db)
      → d ⟶ (generate_topup_token q selector verifier user amount (begin d)).1.committed
  topup_approval :
      (q : Request) (factor : SecondFactor) (raw : List ℕ) (form_valid : Bool) (d : Db)
      → d ⟶ (approve_token q factor raw form_valid (begin d)).1.committed

pub data ◌⟶*◌ : Db → Db → Type 0 where
  here : {d : Db} → d ⟶* d
  after : {d e f : Db} → d ⟶* e → e ⟶ f → d ⟶* f
