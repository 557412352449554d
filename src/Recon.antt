-- ===== src/Recon.antt =====
-- The reconciliation engine of packages/reconciliation/ledgergraph_reconciliation.
pub mod Models
pub mod Bridge
pub mod Index
pub mod Policy
pub mod Scoring
pub mod Rules
pub mod Exceptions
pub mod Outcome
pub mod Settlement
pub mod Engine
