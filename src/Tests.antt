-- ===== src/Tests.antt =====
-- A sample run, and the properties applied to it.
pub mod Samples
pub mod Runs
pub mod Evidence
pub mod Life
pub mod Store
pub mod Gates
pub mod Checkpoints
pub mod Locks
pub mod Replays
pub mod Sources
