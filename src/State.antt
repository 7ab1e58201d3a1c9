-- ===== src/State.antt =====
-- graph/state.rs: the durable state of a source.
pub mod Facts
pub mod Document
pub mod Operations
pub mod Validity
pub mod Lineage
pub mod Reach
