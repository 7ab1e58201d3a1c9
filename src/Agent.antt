-- ===== src/Agent.antt =====
-- graph/agent: the scheduling of source turns.
pub mod Bounded
