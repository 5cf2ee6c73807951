-- ===== src/Lib.antt =====
-- MakopaOS: the kernel crates that decide, without touching the machine, who owns memory and who may do
-- what.
--
-- The loader checks the kernel's ELF image (crates/kernel-image), lays what it occupies over the firmware's
-- memory map, and hands the map and a framebuffer to the kernel (crates/boot-contract); the kernel checks the
-- handoff, gives the usable frames to one allocator (crates/frame-allocator), and runs two tasks under a
-- runtime (crates/task-runtime) in which a task acts only through the handles in its capability table. In
-- the supervised profile the supervisor launches the workload by a registered manifest, the workload asks
-- for one effect, the supervisor decides, and a commit uses the approval up; a bounded journal records what
-- happened. Each task has an address space of seven frames (crates/address-space), which the kernel builds
-- and tears down through a backend.
--
-- Files, and the code that they model:
--   Common      tests, lists over the native numbers, results and machine words; no code of its own.
--   AddressSpace crates/address-space/src/lib.rs: the fixed plan (Layout), the ledger, the owner and its
--               tokens (Owner), construction and teardown over a backend (Build), and the fault classifier
--               (Faults). Accounting is the backend's contract about its frames; Rollback, Allocation,
--               Construction and Teardown are about the code under it.
--   Abi         crates/task-runtime/src/lib.rs: constants, states, statuses and errors.
--   Boot        crates/boot-contract/src/lib.rs: the handoff (BootHandoffV1 and its parts);
--               Boot.Validate: src/validate.rs; Boot.Ranges: what validation guarantees.
--               Boot.Normalize: src/normalize.rs; below it, what the writer adds (Writer), what one override
--               and one source region become (Overrides, Rounds, Sources), and the whole map (Normalized).
--   Capabilities crates/task-runtime/src/lib.rs: CapabilityHandleV1 (Handle), valid_rights (Rights),
--               CapabilitySlot (Slots) and every operation of CapabilityTable (Table); below Table, what
--               an allocation leaves alone (Frame), delegation, validity and the history of a handle.
--   Contexts    TaskContextV1 and its validation against a ContextPolicy.
--   Frames      crates/frame-allocator/src/lib.rs: allocate_frame and free_frame; Initialization:
--               initialize. Extents reads a list of extents as a set of frames; Allocation, Gaps,
--               Insertion, Release, Acceptance, Growth, Filling and Coverage are about the operations, and
--               Ownership about runs of them.
--   Image       crates/kernel-image/src/lib.rs: ValidatedImage::parse and the iterator over the load
--               segments; Headers: one program header; Loads: the loops over them; Listing: the
--               load headers as the file's bytes have them; Iterator: the iterator.
--   Journal     EffectJournalV1, and the records in Journal.Records.
--   Manifest    LaunchManifestV1::validate and the registered manifest.
--   Runtime     Queue: RunQueue; State: the records of Runtime; Validate: Runtime::validate; Dispatch:
--               dispatch_next and the lookup of handles; Approval: submit_approval, inspect_approval,
--               decide_approval and commit_effect, with the steps that they share; Launch: start_workload;
--               Messages: send and receive; Traps: the other traps, handle_trap and capture_trap;
--               Teardown: begin_teardown and complete_teardown. Frame is about what the steps of a trap
--               leave alone, Refusals about the statuses of a refusal; Shapes, Cooperative and Supervised
--               hold the comparisons and the checks of each profile. Construction: new, new_supervised and
--               the two publications; Published and Started are about what they make.
--   Runtime.Journaled  JournaledRuntime and its validate; Traps: handle_trap and the journal reads;
--               Lifecycle: its publication, teardown and finish_reclamation. Verdicts, Validity, Framing and
--               Scheduling are about validate after one operation, Publication and Reached about the states
--               that are reached, Records about the effect and its record.
--   Examples    the theorems at concrete inputs, and runs of the model.
--
-- State and operations: a struct is a record with the source's fields, an enum a data type with its
-- variants. A method on &mut self is a function from the state to the new state and its result; where every
-- caller puts the state before the call back on an error (handle_trap, begin_teardown and complete_teardown
-- of Runtime do), the error carries no state; what a failed call of dispatch_next leaves behind when it does
-- not stand in one of these is not modelled. The journaled runtime and the two publications return the state
-- beside the result, also on an error; `before` is the state before the call. `?` is the do block of Result.
-- A derived comparison with a constant is a Boolean test of each field.
--
-- Numbers: every integer is a native natural number below the bound of its type. checked_add and
-- checked_mul fail from 2^64 on, shifts and masks are the library's bit operations, and usize has 64 bits.
--
-- Arrays: the slots of a capability table (16), the records of the journal (16) and the two entries of the
-- run queue are lists of that length; the extents of the allocator are the lists of the used parts of its
-- arrays, with the source's test of the capacity (1024). Loops over arrays are recursions on the list, so
-- no fuel is needed; a loop on an index is a recursion on the number of rounds that are left.
--
-- The backend of an address space (trait AddressSpaceBackend) is a parameter, a state and one function per
-- method. AddressSpace.Accounting names what is relied on: a count of the frames that are given out, which
-- changes only when an allocation or a return succeeds. Calls of expect and unreachable! return an error of
-- their own.
--
-- Not modelled: the accessors that only read or forward a field. The loader, the architecture layer and the
-- kernel's entry are assembly, firmware calls and raw memory; the component admission tool is a host program
-- over third-party parsers. Byte offsets and sizes of records are the compiler's and appear as constants.
mod Common
pub mod Abi
pub mod AddressSpace
pub mod Capabilities
pub mod Image
pub mod Journal
pub mod Manifest
pub mod Runtime
pub mod Boot
pub mod Contexts
pub mod Frames
mod Examples
