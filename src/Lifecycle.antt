-- ===== src/Lifecycle.antt =====
-- The life of a run across transitions: what every planner's successor has in common, the generation that
-- it becomes, and the runs that sequences of transitions reach.
pub mod Derived
pub mod Successor
pub mod Bindings
pub mod Fields
pub mod Valid
pub mod Commit
pub mod Admitted
pub mod Life
pub mod Initial
pub mod Honest
pub mod Pointer
pub mod Confirmable
pub mod Runs
pub mod Phases
pub mod Sessions
pub mod Guards
pub mod Planned
