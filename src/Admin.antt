-- ===== src/Admin.antt =====
-- Administration (app/admin/).
pub mod Separation
