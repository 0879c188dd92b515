-- ===== src/Replay.antt =====
-- Replay of committed transitions, scripts/lib/runtime/committed-transition-replay.mjs: a generation is derived again
-- from the one before, and must be the same bytes.
pub mod Inputs
pub mod Exact
pub mod Sound
pub mod History
pub mod Chain
pub mod Execute
pub mod Effect
pub mod Complete
