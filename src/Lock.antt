-- ===== src/Lock.antt =====
-- The locks of a run, scripts/lib/runtime/run-lock-ownership.mjs: its functions as programs over file-system calls,
-- which processes run interleaved, one call at a time. Fsync pauses for tests and the environment variables of the
-- tests are left out; a container that is missing is one reason for a call to fail.
pub mod Metadata
pub mod Calls
pub mod Ownership
pub mod Recovery
pub mod System
pub mod Obeys
pub mod Exclusion
pub mod Runs
