-- ===== src/Capabilities.antt =====
-- crates/task-runtime/src/lib.rs: task-local capability handles and tables.
pub mod Handle
pub mod Rights
pub mod Slots
pub mod Table
