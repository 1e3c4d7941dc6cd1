-- ===== src/Security.antt =====
-- The security layer, sccsos/security/.
pub mod RateLimit
pub mod Rbac
pub mod Policy
