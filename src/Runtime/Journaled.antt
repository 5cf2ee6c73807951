-- ===== src/Runtime/Journaled.antt =====
-- `JournaledRuntime`: the supervised runtime with its journal, and what `validate` asks of the two.
pub mod Traps
pub mod Lifecycle
pub mod Verdicts
pub mod Validity
pub mod Records
pub mod Framing
pub mod Scheduling
pub mod Publication
pub mod Reached
use makopa_os.Common.{
  ℕ, ◌+◌, ◌-◌, ◌||◌, ◌&&◌, not, Bool, true, false, Option, none, some, List, [], ◌∷◌, ◌==◌, ◌/=◌,
  ltb, all, if◌then◌else◌, Result, ok, err, ◌>>=◌, ◌>>◌, reject_if, checked_add, u64_mod, is_err,
}
use makopa_os.Abi.{
  TaskState, RuntimeError, wrong_state, journal_invariant, broker_invariant, TrapStatus,
  status_code, invalid_operation, approval_denied, approval_expired, effect_unavailable,
  broker_unavailable, journal_full, journal_unavailable, invalid_record, TrapOperation,
  sender_task_id, receiver_task_id, object_type_approval_broker, object_type_test_effect,
  object_type_effect_journal, right_submit_approval, right_decide_approval, right_commit_effect,
  right_read_effect_journal,
}
use makopa_os.Capabilities.Slots.{CapabilitySlot, CapabilityEntry}
use makopa_os.Contexts.{TaskContextV1}
use makopa_os.Journal.Records.{ApprovalRequestV1, EffectEventKind, requested, EffectRecordV1, event}
use makopa_os.Journal.{
  EffectJournalV1, EffectJournalError, begin_lifecycle, append_reserved, read_triplet,
  effect_journal_object_generation, ◌is◌,
}
use makopa_os.Journal
use makopa_os.Manifest.{expected_workload_generation}
use makopa_os.Runtime.State.{
  Runtime, TaskSlot, ApprovalBrokerState, pending, approved, empty, ApprovalBroker, TrapOutcome,
  resume, ◌in_state◌, ◌in_phase◌, slot, change_slot, report, clear_request, answered,
}
use makopa_os.Runtime.Shapes.{expected_supervisor_generation, all_dead}
use makopa_os.Runtime.Dispatch.{resolve_object, wake_workload}
use makopa_os.Runtime.Approval.{decision_approve, decision_deny, decision_expire}
use makopa_os.Runtime.Traps.{parse, running_task, handle_trap}
use makopa_os.Runtime.Validate

abbrev pub effect_journal_object_id : ℕ
effect_journal_object_id = 1

pub record JournaledRuntime : Type 0 where
  pub runtime : Runtime
  pub journal : EffectJournalV1

-- The entries for the journal in a table.
abbrev pub journal_entries : List CapabilitySlot → List CapabilityEntry
journal_entries [] = []
journal_entries (s ∷ ss) = elim s.entry [
  | none ↦ journal_entries ss
  | some e ↦
      if e.object_type == object_type_effect_journal
      then e ∷ journal_entries ss
      else journal_entries ss
]

abbrev pub reads_journal : CapabilityEntry → Bool
reads_journal e =
    e.rights == right_read_effect_journal
    && e.object.id == effect_journal_object_id
    && e.object.generation == effect_journal_object_generation

-- The number of records that the phase of the broker keeps free.
abbrev pub expected_reservations : ApprovalBroker → ℕ
expected_reservations b = if b in_phase pending then 2 else if b in_phase approved then 1 else 0

abbrev pub is_none : List CapabilityEntry → Bool
is_none [] = true
is_none (e ∷ es) = false

abbrev pub at_most_one : List CapabilityEntry → Bool
at_most_one [] = true
at_most_one (e ∷ es) = is_none es

-- The `match` on the state of the journal.
abbrev pub journal_fits : JournaledRuntime → Bool
journal_fits jr = elim jr.journal.state [
  | Journal.building ↦ false
  | Journal.live ↦
      not (all_dead jr.runtime)
      && jr.journal.reserved_record_count == expected_reservations jr.runtime.broker
  | Journal.sealed ↦
      jr.journal.reserved_record_count == 0
      && not jr.runtime.broker.request_present
      && not (jr.runtime.broker in_phase pending || jr.runtime.broker in_phase approved)
  | Journal.dead ↦
      all_dead jr.runtime && is_none (journal_entries jr.runtime.sender.capabilities.slots)
]

-- `map_err(|_| RuntimeError::JournalInvariant)`.
abbrev pub as_journal_invariant :
    {E : Type 0} → Result E (Unit {0}) → Result RuntimeError (Unit {0})
as_journal_invariant (ok u) = ok u
as_journal_invariant (err e) = err journal_invariant

unfoldable pub validate : JournaledRuntime → Result RuntimeError (Unit {0})
validate jr =
    let supervisor = journal_entries jr.runtime.sender.capabilities.slots in
    do
      Validate.validate jr.runtime
      as_journal_invariant (Journal.validate jr.journal)
      reject_if
          (not (at_most_one supervisor)
            || not (is_none (journal_entries jr.runtime.receiver.capabilities.slots)))
          journal_invariant
      reject_if (not (all reads_journal supervisor)) journal_invariant
      reject_if (not (journal_fits jr)) journal_invariant
      reject_if
          (jr.runtime.receiver in_state TaskState.dead
            && not (jr.journal.state is Journal.sealed || jr.journal.state is Journal.dead))
          journal_invariant
