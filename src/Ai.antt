-- ===== src/Ai.antt =====
-- The investigation package around a language model, packages/ai_investigation/ledgergraph_ai: what
-- is modelled of it.
pub mod Redact
