-- ===== src/AddressSpace.antt =====
-- crates/address-space/src/lib.rs: the fixed address-space plan, the owner of its frames, and the
-- construction and teardown of a space through the architecture's backend.
pub mod Layout
pub mod Owner
pub mod Build
pub mod Accounting
pub mod Rollback
pub mod Allocation
pub mod Construction
pub mod Teardown
pub mod Faults
