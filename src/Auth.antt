-- ===== src/Auth.antt =====
-- core/services/auth.service.ts: registration and login.
pub mod Service
pub mod Laws
pub mod Registration
pub mod Orphans
