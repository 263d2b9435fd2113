-- ===== src/Infra.antt =====
-- infra: what the worker does with the jobs that the services hand over, and its documents.
pub mod Currency
pub mod Receipt
pub mod Mail
pub mod Worker
pub mod FailedJobs
pub mod Redis
