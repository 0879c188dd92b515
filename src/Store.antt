-- ===== src/Store.antt =====
-- scripts/lib/runtime/run-state-store.mjs: what is published for a planned successor.
pub mod Snapshot
pub mod Intake
pub mod Context
pub mod Directory
pub mod Load
pub mod Publish
