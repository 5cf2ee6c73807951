-- ===== src/Runtime/Dispatch.antt =====
-- Which task runs next, and what a trap needs of a handle. An operation that fails has no state here:
-- `handle_trap`, `begin_teardown` and `complete_teardown` put the state before it back.
use makopa_os.Common.{
  ℕ, ◌||◌, not, Option, none, some, ◌==◌, ◌/=◌, if◌then◌else◌, Result, ok, err, ◌>>=◌, ◌>>◌,
  reject_if, ok_or,
}
use makopa_os.Abi.{
  ready, running, blocked_approval, RuntimeError, wrong_state, no_runnable_task,
  invalid_queue_member, broker_invariant, TrapStatus, invalid_handle, broker_unavailable,
  receiver_task_id, endpoint_id, endpoint_generation,
}
use makopa_os.Capabilities.Table.{resolve, resolve_typed}
use makopa_os.Runtime.Queue.{push, pop}
use makopa_os.Runtime.State.{
  TaskSlot, ApprovalBrokerState, Runtime, ◌in_state◌, clear_request, slot, report, put_state,
}
use makopa_os.Runtime.Validate.{validate}
use makopa_os.Runtime.Shapes.{all_dead}

-- `Runtime::dispatch_next`.
unfoldable pub dispatch_next : Runtime → Result RuntimeError (Runtime × Option ℕ)
unfolding slot put_state
dispatch_next r =
    let (queue, next) = pop r.queue in
    do
      reject_if (r.sender in_state running || r.receiver in_state running) wrong_state
      elim next [
        | none ↦ (if all_dead r then ok (r, none) else err no_runnable_task)
        | some task ↦ do
          t ← slot r task
          reject_if (not (t in_state ready)) invalid_queue_member
          r' ← put_state (record r { queue = queue }) task running
          validate r'
          ok (r', some task)
      ]

-- `self.dispatch_next()?.ok_or(NoRunnableTask)?`, and the outcome of a switch.
unfoldable pub dispatch_some : Runtime → Result RuntimeError (Runtime × ℕ)
dispatch_some r = do (r', next) ← dispatch_next r; task ← ok_or next no_runnable_task; ok (r', task)

-- `self.queue.push(task)?`.
unfoldable pub enqueue : Runtime → ℕ → Result RuntimeError Runtime
enqueue r task = do let (queue, pushed) = push r.queue task; pushed; ok (record r { queue = queue })

-- `map_err(|_| InvalidHandle)`.
abbrev pub as_invalid_handle : Result RuntimeError TaskSlot → Result TrapStatus TaskSlot
as_invalid_handle (ok t) = ok t
as_invalid_handle (err e) = err invalid_handle

unfoldable pub resolve_endpoint : Runtime → ℕ → ℕ → ℕ → Result TrapStatus (Unit {0})
unfolding slot
resolve_endpoint r task handle required_right = do
  t ← as_invalid_handle (slot r task)
  entry ← resolve t.capabilities task t.generation handle required_right
  reject_if
      (entry.object.id /= endpoint_id
        || entry.object.generation /= endpoint_generation
        || r.endpoint.object_generation /= endpoint_generation)
      invalid_handle

unfoldable pub resolve_object : Runtime → ℕ → ℕ → ℕ → ℕ → ℕ → ℕ → Result TrapStatus (Unit {0})
unfolding slot
resolve_object r task handle object_type required_right object_id object_generation = do
  t ← as_invalid_handle (slot r task)
  entry ← resolve_typed t.capabilities task t.generation handle object_type required_right
  reject_if
      (entry.object.id /= object_id
        || entry.object.generation /= object_generation
        || object_generation == 0)
      invalid_handle

unfoldable pub wake_workload : Runtime → TrapStatus → ℕ → Result RuntimeError Runtime
unfolding report put_state enqueue
wake_workload r status value = do
  reject_if (not (r.receiver in_state blocked_approval)) broker_invariant
  r₁ ← report r receiver_task_id status value
  r₂ ← put_state r₁ receiver_task_id ready
  enqueue r₂ receiver_task_id

unfoldable pub fail_broker_epoch_exhaustion : Runtime → Result RuntimeError Runtime
unfolding wake_workload
fail_broker_epoch_exhaustion r = do
  r' ← (if r.receiver in_state blocked_approval then wake_workload r broker_unavailable 0 else ok r)
  ok (record r' {
    broker = record (clear_request r'.broker) { state = ApprovalBrokerState.closing };
  })
