-- ===== src/Examples/Teardown.antt =====
-- The supervisor exits while its workload waits for an approval.
use makopa_os.Common.{◌≡◌, refl, true, Result, ok, err}
use makopa_os.Abi.{ready, exited, blocked_approval, RuntimeError}
use makopa_os.Capabilities.Handle.{decode}
use makopa_os.Capabilities.Rights.{valid_rights}
use makopa_os.Capabilities.Slots.{remove_entry}
use makopa_os.Capabilities.Table
use makopa_os.Contexts
use makopa_os.Contexts.{initial, set_result}
use makopa_os.Runtime.Queue.{push, pop, shift, contains}
use makopa_os.Runtime.State.{Runtime, ◌in_state◌, slot, change_slot, report, put_state}
use makopa_os.Runtime.Supervised.{
  validate_supervised, validate_launch, validate_broker, validate_effect,
}
use makopa_os.Runtime.Validate.{validate, validate_slot}
use makopa_os.Runtime.Dispatch.{
  dispatch_next, dispatch_some, enqueue, resolve_object, wake_workload,
}
use makopa_os.Runtime.Approval.{submit_approval, submit_refusal}
use makopa_os.Runtime.Teardown.{begin_teardown, teardown_supervised, drop_supervisor, on_table}
use makopa_os.Runtime.Teardown.Wakeup.{teardown_wakes_workload}
use makopa_os.Examples.Runtime.{asked}

abbrev leaving : Runtime
leaving = record asked { sender = record asked.sender { state = exited } }

abbrev runtime_or : Runtime → Result RuntimeError Runtime → Runtime
runtime_or r (err e) = r
runtime_or r (ok r') = r'

abbrev left : Runtime
left = runtime_or leaving (begin_teardown leaving 1)

leaves : begin_teardown leaving 1 ≡ ok left
unfolding begin_teardown teardown_supervised drop_supervisor on_table Table.mark_closing
    Table.close_all remove_entry wake_workload enqueue push report set_result submit_approval
    submit_refusal resolve_object Table.resolve_typed decode dispatch_some dispatch_next pop shift
    slot change_slot put_state validate validate_slot validate_supervised validate_launch
    validate_broker validate_effect Table.validate valid_rights Table.snapshot contains
    Contexts.clear_dead initial
leaves = refl

waits : leaving.receiver in_state blocked_approval ≡ true
unfolding submit_approval submit_refusal resolve_object Table.resolve_typed decode dispatch_some
    dispatch_next pop shift slot change_slot put_state validate validate_slot validate_supervised
    validate_launch validate_broker validate_effect Table.validate valid_rights Table.snapshot
    contains Contexts.clear_dead initial
waits = refl

teardown_wakes_workload_example : left.receiver.state ≡ ready
unfolding submit_approval submit_refusal resolve_object Table.resolve_typed decode dispatch_some
    dispatch_next pop shift slot change_slot put_state validate validate_slot validate_supervised
    validate_launch validate_broker validate_effect Table.validate valid_rights Table.snapshot
    contains Contexts.clear_dead initial
teardown_wakes_workload_example = teardown_wakes_workload leaving left refl waits leaves
