-- ===== src/Risk.antt =====
-- core/services/risk: the three engines, the decision that joins them, and what they guarantee.
pub mod Types
pub mod ThreeWayMatch
pub mod Anomaly
pub mod BuyerRisk
pub mod Engine
pub mod Service
pub mod Records
