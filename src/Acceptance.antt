-- ===== src/Acceptance.antt =====
-- The acceptance core (acceptance/).
pub mod FailureCodes
pub mod Paths
pub mod Plan
pub mod Registry
pub mod Contract
pub mod Outcome
pub mod Aggregate
pub mod Decide
pub mod Technical
pub mod Dicts
pub mod Stages
pub mod Canonical
pub mod Strict
