-- ===== src/Invoice.antt =====
-- The invoice lifecycle.
pub mod StateMachine
pub mod Service
pub mod History
pub mod Statements
pub mod Notices
pub mod Requests
pub mod Submission
pub mod Resubmission
