-- ===== src/Tests.antt =====
-- Concrete requests, and what they come to.
pub mod Samples
mod Lifecycle
mod Payments
mod Engines
mod Middleware
mod Logins
mod Routes
mod Submission
mod System
mod Infra
mod Server
