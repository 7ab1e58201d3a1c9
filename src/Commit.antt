-- ===== src/Commit.antt =====
-- graph/commit.rs and graph/manifest.rs: crash-atomic commits of a source generation.
pub mod Path
pub mod Operation
pub mod Manifest
pub mod Store
pub mod Replay
pub mod Recovery
pub mod Crash
