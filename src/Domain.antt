-- ===== src/Domain.antt =====
-- The domain package, packages/domain/ledgergraph_domain: enumerations, money and the canonical
-- transaction.
pub mod Enums
pub mod Workflow
pub mod Money
pub mod Canonical
