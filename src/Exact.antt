-- ===== src/Exact.antt =====
-- crates/ffhn-core/src/model/policy/exact_numeric.rs: exact decimal comparison on fixed-width
-- integers.
pub mod Unsigned
pub mod Decimal
