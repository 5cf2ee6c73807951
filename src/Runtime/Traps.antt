-- ===== src/Runtime/Traps.antt =====
-- The other traps, and `handle_trap`, which runs the operation that a task asks for.
pub mod Preserved
pub mod Effects
use makopa_os.Common.{
  ℕ, ◌||◌, ◌&&◌, not, Bool, true, false, Option, none, some, ◌==◌, ◌/=◌, if◌then◌else◌, Result, ok,
  err, ◌>>=◌, ◌>>◌, reject_if,
}
use makopa_os.Abi.{
  TaskState, ready, running, exited, RuntimeError, wrong_state, multiple_running_tasks,
  no_running_task, TrapStatus, invalid_operation, TrapOperation,
}
use makopa_os.Capabilities.Table
use makopa_os.Capabilities.Table.{CapabilityTable}
use makopa_os.Contexts.{TrapFrameV1, TaskContextV1, from_trap}
use makopa_os.Runtime.State.{
  TaskSlot, Runtime, TrapOutcome, resume, switch, ◌in_state◌, slot, change_slot, report, put_state,
}
use makopa_os.Runtime.Validate.{validate}
use makopa_os.Runtime.Dispatch.{enqueue, dispatch_some}
use makopa_os.Runtime.Approval.{
  Trap, answer, submit_approval, inspect_approval, decide_approval, commit_effect,
}
use makopa_os.Runtime.Launch.{refuse, start_workload}
use makopa_os.Runtime.Messages.{send, receive}

-- `TrapOperation::parse`.
unfoldable pub parse : ℕ → Option TrapOperation
parse value =
    if value == 0
    then some TrapOperation.yield
    else if value == 1
    then some TrapOperation.send
    else if value == 2
    then some TrapOperation.receive
    else if value == 3
    then some TrapOperation.exit
    else if value == 4
    then some TrapOperation.duplicate
    else if value == 5
    then some TrapOperation.close
    else if value == 6
    then some TrapOperation.start_workload
    else if value == 7
    then some TrapOperation.submit_approval
    else if value == 8
    then some TrapOperation.inspect_approval
    else if value == 9
    then some TrapOperation.decide_approval
    else if value == 10
    then some TrapOperation.commit_effect
    else if value == 11
    then some TrapOperation.inspect_effect_journal
    else if value == 12
    then some TrapOperation.read_effect_record
    else none

-- A round of the loop of `running_task`.
abbrev pub found_running : ℕ → TaskSlot → Result RuntimeError ℕ
found_running found t =
    if not (t in_state running)
    then ok found
    else if found /= 0
    then err multiple_running_tasks
    else ok t.id

unfoldable pub running_task : Runtime → Result RuntimeError ℕ
running_task r = do
  first ← found_running 0 r.sender
  found ← found_running first r.receiver
  (if found == 0 then err no_running_task else ok found)

unfoldable pub yield_task : Runtime → ℕ → ℕ → ℕ → ℕ → Trap
unfolding refuse report put_state enqueue dispatch_some
yield_task r task first second third =
    if first /= 0 || second /= 0 || third /= 0 then refuse r task invalid_operation else do
      r₁ ← report r task TrapStatus.ok 0
      r₂ ← put_state r₁ task ready
      r₃ ← enqueue r₂ task
      (r₄, next) ← dispatch_some r₃
      ok (r₄, switch next)

unfoldable pub exit_task : Runtime → ℕ → ℕ → ℕ → ℕ → Trap
unfolding refuse put_state
exit_task r task first second third =
    if first /= 0 || second /= 0 || third /= 0
    then refuse r task invalid_operation
    else do r' ← put_state r task exited; validate r'; ok (r', TrapOutcome.exit task)

-- The result registers for a result of `CapabilityTable::duplicate`.
abbrev pub status_of : Result TrapStatus ℕ → TrapStatus
status_of (ok handle) = TrapStatus.ok
status_of (err status) = status

abbrev pub value_of : Result TrapStatus ℕ → ℕ
value_of (ok handle) = handle
value_of (err status) = 0

abbrev pub status_of_close : Result TrapStatus (Unit {0}) → TrapStatus
status_of_close (ok u) = TrapStatus.ok
status_of_close (err status) = status

unfoldable pub duplicate_handle : Runtime → ℕ → ℕ → ℕ → ℕ → Trap
unfolding refuse slot change_slot answer
duplicate_handle r task source requested_rights reserved =
    if reserved /= 0 then refuse r task invalid_operation else do
      t ← slot r task
      let (table, result) = Table.duplicate t.capabilities task t.generation source requested_rights
      r' ← change_slot r task (λ s. record s { capabilities = table })
      answer r' task (status_of result) (value_of result)

unfoldable pub close_handle : Runtime → ℕ → ℕ → ℕ → ℕ → Trap
unfolding refuse slot change_slot answer
close_handle r task handle reserved_rights reserved =
    if reserved_rights /= 0 || reserved /= 0 then refuse r task invalid_operation else do
      t ← slot r task
      let (table, result) = Table.close t.capabilities task t.generation handle
      r' ← change_slot r task (λ s. record s { capabilities = table })
      answer r' task (status_of_close result) 0

-- The `match` on the operation.
unfoldable pub perform : Runtime → ℕ → TaskContextV1 → TrapOperation → Trap
unfolding yield_task exit_task duplicate_handle close_handle answer
perform r task input TrapOperation.yield = yield_task r task input.rdi input.rsi input.rdx
perform r task input TrapOperation.send = send r task input.rdi input.rsi input.rdx
perform r task input TrapOperation.receive = receive r task input.rdi input.rsi input.rdx
perform r task input TrapOperation.exit = exit_task r task input.rdi input.rsi input.rdx
perform r task input TrapOperation.duplicate = duplicate_handle r task input.rdi input.rsi input.rdx
perform r task input TrapOperation.close = close_handle r task input.rdi input.rsi input.rdx
perform r task input TrapOperation.start_workload =
    start_workload r task input.rdi input.rsi input.rdx
perform r task input TrapOperation.submit_approval =
    submit_approval r task input.rdi input.rsi input.rdx
perform r task input TrapOperation.inspect_approval =
    inspect_approval r task input.rdi input.rsi input.rdx
perform r task input TrapOperation.decide_approval =
    decide_approval r task input.rdi input.rsi input.rdx
perform r task input TrapOperation.commit_effect =
    commit_effect r task input.rdi input.rsi input.rdx
perform r task input TrapOperation.inspect_effect_journal = answer r task invalid_operation 0
perform r task input TrapOperation.read_effect_record = answer r task invalid_operation 0

unfoldable pub handle_trap_inner : Runtime → ℕ → Trap
unfolding running_task perform refuse slot parse
handle_trap_inner r task = do
  current ← running_task r
  reject_if (current /= task) wrong_state
  t ← slot r task
  (elim (parse t.context.rax) [
    | none ↦ refuse r task invalid_operation
    | some operation ↦ perform r task t.context operation
  ])

-- `Runtime::handle_trap`: on an error the state before it is put back.
unfoldable pub handle_trap : Runtime → ℕ → Runtime × Result RuntimeError TrapOutcome
unfolding handle_trap_inner
handle_trap r task = elim (handle_trap_inner r task) [
  | err e ↦ (r, err e)
  | ok (r', outcome) ↦ (r', ok outcome)
]

unfoldable pub capture_trap : Runtime → ℕ → TrapFrameV1 → ℕ → ℕ → Result RuntimeError Runtime
unfolding slot change_slot
capture_trap r task frame root generation = do
  t ← slot r task
  reject_if (not (t in_state running) || t.generation /= generation) wrong_state
  change_slot r task (λ s. record s { context = from_trap frame task generation root })
