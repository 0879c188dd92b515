-- ===== src/Source.antt =====
-- From explicitly selected source files to the context of a run: scripts/lib/builder-explicit-source-runtime.mjs and
-- `verifyBuilderInput` of scripts/lib/builder-runtime-transition.mjs.
pub mod Synthetic
pub mod Batch
pub mod Context
pub mod Verify
pub mod Resolve
pub mod Named
pub mod Sealed
pub mod Admits
pub mod Shape
