-- ===== src/Measurement.antt =====
-- graph/measurement_state.rs: the durable state of a measurement, and the rebasing of its policy.
pub mod Document
pub mod Rebase
pub mod Accept
pub mod Failures
