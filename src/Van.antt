-- ===== src/Van.antt =====
-- Virtual accounts and their ledger.
pub mod Service
pub mod Statements
pub mod Reports
pub mod Payments
pub mod Receipts
pub mod Retries
pub mod Openings
pub mod Outcomes
pub mod Ledger
