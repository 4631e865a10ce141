-- ===== src/Auth.antt =====
-- Authentication (app/auth/).
pub mod Rows
pub mod Throttle
pub mod Lockout
pub mod Totp
pub mod Keeps
pub mod RecoveryCodes
pub mod Registration
pub mod Tests
