-- ===== src/Runtime/Refusals.antt =====
-- The statuses with which a handle or an operation is refused.
use makopa_os.Common.{ℕ, ◌≡◌, ◌≢◌, some, err, arith, Option-cases, Result-cases, inl, inr}
use makopa_os.Abi.{
  TrapStatus, object_type_task_control, right_start, right_send, fixed_object_generation,
}
use makopa_os.Capabilities.Handle.{decode}
use makopa_os.Capabilities.Table.{CapabilityTable, resolve_typed, resolve}
use makopa_os.Runtime.State.{Runtime, slot}
use makopa_os.Runtime.Dispatch.{resolve_endpoint, resolve_object}
use makopa_os.Runtime.Launch.{start_refusal, task_control_object_id}
use makopa_os.Runtime.Messages.{send_refusal}

resolve_typed_refused :
    (t : CapabilityTable) (task generation raw object_type right : ℕ)
    → resolve_typed t task generation raw object_type right ≢ err TrapStatus.ok
unfolding resolve_typed
resolve_typed_refused t task generation raw object_type right e = elim (Option-cases (decode raw)) [
  | inl bad ↦ ground arith
  | inr ((index, g), good) ↦ ground arith
]

resolve_endpoint_refused :
    (r : Runtime) (task handle right : ℕ) → resolve_endpoint r task handle right ≢ err TrapStatus.ok
unfolding resolve_endpoint resolve
resolve_endpoint_refused r task handle right e = elim (Result-cases (slot r task)) [
  | inr (x, bad) ↦ ground arith
  | inl (t, found) ↦
      ground (arith, resolve_typed_refused t.capabilities task t.generation handle 1 right)
]

resolve_object_refused :
    (r : Runtime) (task handle object_type right id generation : ℕ)
    → resolve_object r task handle object_type right id generation ≢ err TrapStatus.ok
unfolding resolve_object
resolve_object_refused r task handle object_type right id generation e =
    elim (Result-cases (slot r task)) [
      | inr (x, bad) ↦ ground arith
      | inl (t, found) ↦
          ground
            (arith, resolve_typed_refused t.capabilities task t.generation handle object_type right)
    ]

pub start_refusal_refused :
    (r : Runtime) (task handle manifest_id reserved : ℕ) (status : TrapStatus)
    → start_refusal r task handle manifest_id reserved ≡ some status
    → status ≢ TrapStatus.ok
unfolding start_refusal
start_refusal_refused r task handle manifest_id reserved status e same = ground (
  arith,
  resolve_object_refused r task handle object_type_task_control right_start task_control_object_id
      fixed_object_generation,
)

pub send_refusal_refused :
    (r : Runtime) (task handle reserved : ℕ) (status : TrapStatus)
    → send_refusal r task handle reserved ≡ some status
    → status ≢ TrapStatus.ok
unfolding send_refusal
send_refusal_refused r task handle reserved status e same =
    ground (arith, resolve_endpoint_refused r task handle right_send)
