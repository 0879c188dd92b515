-- ===== src/Primitives.antt =====
-- scripts/lib/runtime/run-primitives.mjs: the helpers that every part of the run runtime shares.
pub mod Sets
pub mod Names
pub mod Blockers
pub mod Sources
pub mod SourceModes
pub mod Checkpoint
pub mod Manifest
