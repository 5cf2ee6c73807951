-- ===== src/Runtime/Teardown.antt =====
-- `begin_teardown` and `complete_teardown`: a task that has exited gives up what it holds.
pub mod Wakeup
use makopa_os.Common.{
  ℕ, ◌||◌, ◌&&◌, not, Bool, true, false, Option, none, some, ◌==◌, ◌/=◌, if◌then◌else◌, Result, ok,
  err, ◌>>=◌, ◌>>◌, reject_if,
}
use makopa_os.Abi.{
  TaskState, ready, exited, blocked_receive, blocked_approval, RuntimeError, wrong_state,
  invalid_task, TrapStatus, approval_denied, approval_expired, broker_unavailable, peer_exited,
  sender_task_id, receiver_task_id,
}
use makopa_os.Capabilities.Table.{
  CapabilityTable, closing, ◌is_not◌, mark_closing, close_all, begin_closing, finish_dead,
}
use makopa_os.Contexts.{clear_dead}
use makopa_os.Runtime.State.{
  TaskSlot, ApprovalBrokerState, pending, approved, empty, ApprovalBroker, Runtime, empty_manifest,
  dead_broker, empty_effect, empty_endpoint, ◌in_state◌, ◌in_phase◌, is_supervised, clear_request,
  slot, change_slot, report, put_state,
}
use makopa_os.Runtime.Shapes.{all_dead}
use makopa_os.Runtime.Validate.{validate}
use makopa_os.Runtime.Dispatch.{dispatch_next, enqueue, wake_workload}

-- An operation on the capability table of a task.
unfoldable pub on_table :
    Runtime
    → ℕ
    → (CapabilityTable → CapabilityTable × Result RuntimeError (Unit {0}))
    → Result RuntimeError Runtime
unfolding slot change_slot
on_table r task operate = do
  t ← slot r task
  let (table, result) = operate t.capabilities
  result
  change_slot r task (λ s. record s { capabilities = table })

-- The status with which a waiting workload learns that its supervisor is gone.
abbrev pub terminal : ApprovalBroker → TrapStatus
terminal b =
    if b in_phase pending
    then approval_denied
    else if b in_phase approved
    then approval_expired
    else broker_unavailable

unfoldable pub drop_supervisor : Runtime → Result RuntimeError Runtime
drop_supervisor r = do
  r' ←
      (if r.receiver in_state blocked_approval then wake_workload r (terminal r.broker) 0 else ok r)
  ok (record r' {
    broker = record (clear_request r'.broker) {
      state = ApprovalBrokerState.closing;
      supervisor_task_id = 0;
      supervisor_generation = 0;
    };
    effect = empty_effect;
  })

-- The state of the broker after its workload is gone.
abbrev pub phase_without_workload : Runtime → ApprovalBrokerState
phase_without_workload r =
    if r.broker in_phase ApprovalBrokerState.closing || r.broker in_phase ApprovalBrokerState.dead
    then r.broker.state
    else if r.sender in_state TaskState.dead
    then ApprovalBrokerState.closing
    else empty

abbrev pub drop_workload : Runtime → Runtime
drop_workload r = record r {
  manifest = empty_manifest;
  broker = record (clear_request r.broker) {
    state = phase_without_workload r;
    workload_task_id = 0;
    workload_generation = 0;
  };
}

unfoldable pub teardown_supervised : Runtime → ℕ → Result RuntimeError Runtime
unfolding on_table drop_supervisor
teardown_supervised r task = do
  r₁ ← on_table r task mark_closing
  r₂ ←
      (if task == sender_task_id
        then drop_supervisor r₁
        else if task == receiver_task_id
        then ok (drop_workload r₁)
        else err invalid_task)
  r₃ ← on_table r₂ task close_all
  validate r₃
  ok r₃

-- The endpoint without its sender, and a receiver that waits told so.
unfoldable pub drop_sender : Runtime → Result RuntimeError Runtime
unfolding report put_state enqueue
drop_sender r =
    let r₀ : Runtime = record r {
      endpoint = record r.endpoint { sender_task = 0; sender_generation = 0 };
    } in
    if r.endpoint.occupied || not (r.receiver in_state blocked_receive) then ok r₀ else do
      r₁ ← report r₀ receiver_task_id peer_exited 0
      r₂ ← put_state r₁ receiver_task_id ready
      enqueue r₂ receiver_task_id

abbrev pub drop_receiver : Runtime → Runtime
drop_receiver r = record r {
  endpoint = record r.endpoint {
    receiver_task = 0;
    receiver_generation = 0;
    occupied = false;
    payload = 0;
  };
}

unfoldable pub teardown_cooperative : Runtime → ℕ → Result RuntimeError Runtime
unfolding on_table drop_sender
teardown_cooperative r task = do
  r₁ ← on_table r task begin_closing
  r₂ ←
      (if task == sender_task_id
        then drop_sender r₁
        else if task == receiver_task_id
        then ok (drop_receiver r₁)
        else err invalid_task)
  validate r₂
  ok r₂

-- `begin_teardown_inner`.
unfoldable pub begin_teardown : Runtime → ℕ → Result RuntimeError Runtime
unfolding slot teardown_supervised teardown_cooperative
begin_teardown r task = do
  t ← slot r task
  reject_if (not (t in_state exited)) wrong_state
  (if is_supervised r.profile then teardown_supervised r task else teardown_cooperative r task)

-- The task dead, and with the supervisor its broker and effect.
abbrev pub buried : Runtime → ℕ → Runtime
buried r task =
    let r₁ : Runtime =
      if is_supervised r.profile && task == sender_task_id
      then record r { broker = dead_broker; effect = empty_effect }
      else r in
    if all_dead r₁
    then record r₁ {
      endpoint = empty_endpoint;
      manifest = empty_manifest;
      broker = dead_broker;
      effect = empty_effect;
    }
    else r₁

-- `complete_teardown_inner`.
unfoldable pub complete_teardown : Runtime → ℕ → Result RuntimeError (Runtime × Option ℕ)
unfolding slot on_table change_slot
complete_teardown r task = do
  t ← slot r task
  reject_if (not (t in_state exited) || t.capabilities.state is_not closing) wrong_state
  r₁ ← on_table r task finish_dead
  r₂ ←
      change_slot r₁ task
        (λ s. record s { state = TaskState.dead; generation = 0; context = clear_dead })
  validate (buried r₂ task)
  dispatch_next (buried r₂ task)
