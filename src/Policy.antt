-- ===== src/Policy.antt =====
-- crates/ffhn-core/src/model/policy: typed values, conditions and their exact evaluation.
pub mod Types
pub mod Value
pub mod Contract
pub mod Evaluate
pub mod Validation
