-- ===== src/Tenancy.antt =====
-- The part that keeps tenants apart: their quotas.
pub mod Quota
