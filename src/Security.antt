-- ===== src/Security.antt =====
-- The security component (app/security/).
pub mod RateLimits
pub mod AuditChain
pub mod Tests
