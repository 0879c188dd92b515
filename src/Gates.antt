-- ===== src/Gates.antt =====
-- Cross-field validators of single artifacts, which the runtime and the release checks run as scripts. Each reads
-- one parsed file, an object or an array (the scripts throw on a file that is `null`), and collects failures; the
-- run fails when there is one.
pub mod Completion
pub mod Compaction
pub mod UnitStrategy
pub mod Checkpoint
pub mod Session
pub mod Lineage
