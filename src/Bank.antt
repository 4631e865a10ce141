-- ===== src/Bank.antt =====
-- The banking component (app/banking/).
pub mod Types
pub mod Store
pub mod Request
pub mod Usage
pub mod Transfer
pub mod Local
pub mod Risk
pub mod Payup
pub mod TopUp
pub mod PublicTransaction
pub mod History
pub mod Rules
pub mod Money
pub mod Tests
