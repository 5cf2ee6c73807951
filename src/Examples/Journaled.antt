-- ===== src/Examples/Journaled.antt =====
-- A commit through the journaled runtime, and a run from its publication.
use makopa_os.Common.{◌≡◌, ◌⊎◌, refl, ok, none, false, some}
use makopa_os.Abi.{
  running, TrapStatus, object_type_approval_broker, right_submit_approval, right_decide_approval,
}
use makopa_os.Capabilities.Handle.{decode, from_parts}
use makopa_os.Capabilities.Rights.{valid_rights}
use makopa_os.Capabilities.Slots.{position}
use makopa_os.Capabilities.Table.{resolve_typed, allocate, install_object_building, building_table}
use makopa_os.Capabilities.Table
use makopa_os.Contexts.{initial, set_result}
use makopa_os.Contexts
use makopa_os.Journal.Records.{is_default_record, event, requested, approved}
use makopa_os.Journal.{
  EffectJournalV1, building_journal, publish, begin_lifecycle, append_reserved, append_unreserved,
  records_fit,
}
use makopa_os.Journal
use makopa_os.Runtime.Queue.{empty_queue, push, pop, shift, contains}
use makopa_os.Runtime.State.{Runtime, resume, slot, change_slot, report, put_state}
use makopa_os.Runtime.Validate.{validate_slot}
use makopa_os.Runtime.Validate
use makopa_os.Runtime.Supervised.{
  validate_supervised, validate_launch, validate_broker, validate_effect,
}
use makopa_os.Runtime.Dispatch.{
  dispatch_next, dispatch_some, enqueue, resolve_object, wake_workload,
}
use makopa_os.Runtime.Approval.{
  answer, submit_refusal, submit_approval, decide_refusal, decide_approval, apply_decision,
  commit_refusal, commit_effect, conclude,
}
use makopa_os.Runtime.Construction.{unpublished_supervised, install_grants, with_table, push_task}
use makopa_os.Runtime.Traps.{parse, running_task, handle_trap, handle_trap_inner, perform}
use makopa_os.Runtime.Journaled.{JournaledRuntime, validate}
use makopa_os.Runtime.Journaled.Traps.{
  handle_journaled_trap, handle_recorded_trap, record_trap, record_reserved, conclude_trap,
}
use makopa_os.Runtime.Journaled.Lifecycle.{
  new_journaled, publish_journaled, publish_handle, publish_rest,
}
use makopa_os.Runtime.Journaled.Validity.{handle_journaled_trap-valid}
use makopa_os.Runtime.Journaled.Records.{IsRecorded, handle_journaled_trap-IsRecorded}
use makopa_os.Runtime.Journaled.Reached.{starts, goes, dispatches, Reached-valid}
use makopa_os.Examples.Runtime.{context_of}
use makopa_os.Examples.Traps.{asking}

-- The journal of a request that has been approved.
abbrev approved_journal : EffectJournalV1
unfolding building_journal
approved_journal =
    (append_reserved
      (begin_lifecycle (publish building_journal).0 (
        event requested TrapStatus.ok 1 2 5 asking.broker.request object_type_approval_broker
          right_submit_approval)).0
      (event approved TrapStatus.ok 2 1 4 asking.broker.request object_type_approval_broker
        right_decide_approval)
      false).0

abbrev committing : JournaledRuntime
committing = record { runtime = asking; journal = approved_journal }

abbrev committed : JournaledRuntime
committed = (handle_journaled_trap committing 1).0

commits : handle_journaled_trap committing 1 ≡ (committed, ok (resume 1))
unfolding handle_journaled_trap handle_recorded_trap record_trap record_reserved conclude_trap
    append_reserved begin_lifecycle append_unreserved event approved_journal publish
    building_journal handle_trap handle_trap_inner perform running_task parse validate
    Journal.validate records_fit is_default_record commit_effect commit_refusal conclude
    wake_workload enqueue push decide_approval decide_refusal apply_decision answer report
    set_result submit_approval submit_refusal resolve_object slot resolve_typed decode put_state
    change_slot dispatch_some dispatch_next pop shift Validate.validate validate_slot
    validate_supervised validate_launch validate_broker validate_effect Table.validate valid_rights
    Table.snapshot contains Contexts.clear_dead initial
commits = refl

handle_journaled_trap-IsRecorded_example :
    (committed.runtime.effect ≡ committing.runtime.effect) ⊎ IsRecorded committing committed 1
handle_journaled_trap-IsRecorded_example =
    handle_journaled_trap-IsRecorded committing committed 1 (resume 1) commits

committing_valid : validate committing ≡ ok tt
unfolding approved_journal append_reserved begin_lifecycle append_unreserved event publish
    building_journal validate Journal.validate records_fit is_default_record decide_approval
    decide_refusal apply_decision answer report set_result submit_approval submit_refusal
    resolve_object slot resolve_typed decode put_state change_slot dispatch_some dispatch_next pop
    shift Validate.validate validate_slot validate_supervised validate_launch validate_broker
    validate_effect Table.validate valid_rights Table.snapshot contains Contexts.clear_dead initial
committing_valid = refl

committed_valid : validate committed ≡ ok tt
committed_valid =
    handle_journaled_trap-valid committing committed 1 (resume 1) committing_valid commits

abbrev made : JournaledRuntime
unfolding building_journal unpublished_supervised
made =
    (publish_journaled
      (record {
        runtime = unpublished_supervised (context_of 1 4) (context_of 2 5);
        journal = building_journal;
      })
      none).0

made_new : new_journaled (context_of 1 4) (context_of 2 5) ≡ ok made
unfolding made new_journaled publish_journaled publish_handle publish_rest unpublished_supervised
    building_journal install_grants with_table push_task push contains position allocate
    install_object_building Table.publish building_table from_parts valid_rights publish validate
    Journal.validate records_fit is_default_record Validate.validate validate_slot
    validate_supervised validate_launch validate_broker validate_effect Table.validate
    Table.snapshot decode Contexts.clear_dead initial
made_new = refl

abbrev dispatched : Runtime
unfolding made
dispatched = record made.runtime {
  sender = record made.runtime.sender { state = running };
  queue = empty_queue;
}

made_dispatches : dispatch_next made.runtime ≡ ok (dispatched, some 1)
unfolding made publish_journaled publish_handle publish_rest install_grants with_table push_task
    push contains position allocate install_object_building Table.publish building_table from_parts
    valid_rights publish validate Journal.validate records_fit is_default_record Validate.validate
    validate_slot validate_supervised validate_launch validate_broker validate_effect Table.validate
    Table.snapshot decode Contexts.clear_dead initial dispatched dispatch_next pop shift slot
    put_state change_slot
made_dispatches = refl

Reached-valid_example : validate (record made { runtime = dispatched }) ≡ ok tt
Reached-valid_example =
    Reached-valid (record made { runtime = dispatched })
      (goes made (record made { runtime = dispatched })
        (starts (context_of 1 4) (context_of 2 5) made made_new)
        (dispatches dispatched (some 1) made_dispatches))
