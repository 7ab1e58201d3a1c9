-- ===== src/Lineage.antt =====
-- graph/lineage_manifest.rs and graph/transition.rs: the transitions that replace the lineage of a
-- source or of a measurement.
pub mod Manifest
pub mod Disk
pub mod Swap
pub mod Transition
