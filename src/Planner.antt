-- ===== src/Planner.antt =====
-- scripts/lib/runtime/transition-planner-common.mjs: what a planner reads and what it returns. A planner
-- derives the successor of a loaded run, or says why there is none; it writes nothing.
pub mod Emit
pub mod Confirm
pub mod Evidence
pub mod Completion
pub mod Types
pub mod Results
pub mod Prepare
