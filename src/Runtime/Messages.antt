-- ===== src/Runtime/Messages.antt =====
-- `send` and `receive`: the endpoint of the cooperative profile.
pub mod Delivery
use makopa_os.Common.{
  ℕ, ◌||◌, ◌&&◌, not, Bool, true, false, Option, none, some, ◌==◌, ◌/=◌, if◌then◌else◌, Result, ok,
  err, ◌>>=◌, ◌>>◌,
}
use makopa_os.Abi.{
  TaskState, ready, blocked_receive, RuntimeError, TrapStatus, invalid_operation, peer_exited,
  slot_full, receiver_task_id, right_send, right_receive,
}
use makopa_os.Runtime.State.{
  TaskSlot, EndpointSnapshot, Runtime, TrapOutcome, resume, switch, ◌in_state◌, report, put_state,
}
use makopa_os.Runtime.Validate.{validate}
use makopa_os.Runtime.Dispatch.{enqueue, resolve_endpoint, dispatch_some}
use makopa_os.Runtime.Approval.{Trap, answer}
use makopa_os.Runtime.Launch.{refuse}

-- `occupied = false; payload = 0`.
abbrev pub drained : EndpointSnapshot → EndpointSnapshot
drained e = record e { occupied = false; payload = 0 }

unfoldable pub send_refusal : Runtime → ℕ → ℕ → ℕ → Option TrapStatus
send_refusal r task handle reserved =
    if reserved /= 0
    then some invalid_operation
    else elim (resolve_endpoint r task handle right_send) [
      | err status ↦ some status
      | ok u ↦
          if r.endpoint.receiver_generation == 0
          then some peer_exited
          else if r.endpoint.occupied
          then some slot_full
          else none
    ]

-- The message goes into the slot, and from there to a receiver that waits.
unfoldable pub deliver : Runtime → ℕ → Result RuntimeError Runtime
unfolding report put_state enqueue
deliver r message =
    let r₀ : Runtime = record r {
      endpoint = record r.endpoint { occupied = true; payload = message };
    } in
    if not (r₀.receiver in_state blocked_receive) then ok r₀ else do
      r₁ ←
          report (record r₀ { endpoint = drained r₀.endpoint }) receiver_task_id TrapStatus.ok
            r₀.endpoint.payload
      r₂ ← put_state r₁ receiver_task_id ready
      enqueue r₂ receiver_task_id

unfoldable pub send : Runtime → ℕ → ℕ → ℕ → ℕ → Trap
unfolding send_refusal deliver answer
send r task handle message reserved = elim (send_refusal r task handle reserved) [
  | some status ↦ answer r task status 0
  | none ↦ do r' ← deliver r message; answer r' task TrapStatus.ok 0
]

unfoldable pub receive_refusal : Runtime → ℕ → ℕ → ℕ → ℕ → Option TrapStatus
receive_refusal r task handle reserved_message reserved =
    if reserved_message /= 0 || reserved /= 0
    then some invalid_operation
    else elim (resolve_endpoint r task handle right_receive) [
      | err status ↦ some status
      | ok u ↦ none
    ]

unfoldable pub receive : Runtime → ℕ → ℕ → ℕ → ℕ → Trap
unfolding receive_refusal refuse answer put_state dispatch_some
receive r task handle reserved_message reserved =
    elim (receive_refusal r task handle reserved_message reserved) [
      | some status ↦ refuse r task status
      | none ↦
          if r.endpoint.occupied
          then answer (record r { endpoint = drained r.endpoint }) task TrapStatus.ok
              r.endpoint.payload
          else if r.endpoint.sender_generation == 0
          then refuse r task peer_exited
          else do
            r₁ ← put_state r task blocked_receive
            (r₂, next) ← dispatch_some r₁
            validate r₂
            ok (r₂, switch next)
    ]
