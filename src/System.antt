-- ===== src/System.antt =====
-- The whole program's tables, and that every call of a service keeps them consistent.
pub mod Statements
pub mod Payments
pub mod Calls
pub mod Submission
pub mod Run
pub mod Elsewhere
pub mod Book
pub mod Trail
pub mod Refinement
use vanguard_settlement_engi.Database.{Tables}
use vanguard_settlement_engi.Van.Ledger.{IsBalanced}
use vanguard_settlement_engi.Invoice.History.{IsReplayed}

pub record IsConsistent (t : Tables) : Type 0 where
  pub balanced : IsBalanced t
  pub replayed : IsReplayed t
