-- ===== src/Api.antt =====
-- services/middleware: what a request passes on its way in, and what an error becomes on its way out.
pub mod Replies
pub mod ErrorHandler
pub mod Authenticate
pub mod Idempotency
pub mod WebhookAuth
pub mod Limits
pub mod Sessions
pub mod Schemas
pub mod Routes
