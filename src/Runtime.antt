-- ===== src/Runtime.antt =====
-- crates/task-runtime/src/lib.rs: the scheduler of the two tasks.
pub mod Refusals
pub mod Queue
pub mod State
pub mod Shapes
pub mod Cooperative
pub mod Supervised
pub mod Validate
pub mod Dispatch
pub mod Frame
pub mod Approval
pub mod Launch
pub mod Construction
pub mod Journaled
pub mod Messages
pub mod Traps
pub mod Teardown
