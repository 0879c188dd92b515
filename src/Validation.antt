-- ===== src/Validation.antt =====
-- scripts/lib/runtime/run-state-validation.mjs: the checks of a stored generation and of CURRENT.json.
pub mod Manifest
pub mod Pointer
pub mod Generation
