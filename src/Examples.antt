-- ===== src/Examples.antt =====
-- The theorems at concrete inputs, and runs of the model.
mod AddressSpace
mod Boot
mod Normalize
mod Capabilities
mod Construction
mod Frames
mod Image
mod Journal
mod Journaled
mod Runtime
mod Teardown
mod Traps
