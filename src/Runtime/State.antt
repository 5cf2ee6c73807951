-- ===== src/Runtime/State.antt =====
-- The state of `Runtime`: two tasks, the run queue, the endpoint, the manifest, the approval broker and
-- the synthetic effect.
use makopa_os.Common.{ℕ, Bool, true, false, ◌==◌, if◌then◌else◌, Result, ok, err}
use makopa_os.Abi.{
  TaskState, staged, ready, running, blocked_receive, blocked_approval, exited, RuntimeError,
  invalid_task, TrapStatus, status_code, sender_task_id, receiver_task_id, fixed_object_generation,
}
use makopa_os.Capabilities.Table.{CapabilityTable}
use makopa_os.Contexts.{TaskContextV1, set_result}
use makopa_os.Journal.Records.{ApprovalRequestV1}
use makopa_os.Runtime.Queue.{RunQueue}

pub record TaskSlot : Type 0 where
  pub id : ℕ
  pub generation : ℕ
  pub state : TaskState
  pub context : TaskContextV1
  pub capabilities : CapabilityTable

pub data RuntimeProfile : Type 0 where
  cooperative supervised : RuntimeProfile

pub data ApprovalBrokerState : Type 0 where
  building empty pending approved closing dead : ApprovalBrokerState

pub record ManifestPublication : Type 0 where
  pub manifest_id : ℕ
  pub principal_id : ℕ
  pub target_task_id : ℕ
  pub target_generation : ℕ
  pub image_id : ℕ
  pub published : Bool

pub record ApprovalBroker : Type 0 where
  pub state : ApprovalBrokerState
  pub object_generation : ℕ
  pub supervisor_task_id : ℕ
  pub supervisor_generation : ℕ
  pub workload_task_id : ℕ
  pub workload_generation : ℕ
  pub request_kind : ℕ
  pub request : ApprovalRequestV1
  pub request_present : Bool
  pub next_sequence : ℕ
  pub sequence_exhausted : Bool
  pub decision_epoch : ℕ
  pub approval_epoch : ℕ
  pub expiry_epoch : ℕ

pub record SyntheticEffect : Type 0 where
  pub object_generation : ℕ
  pub supervisor_task_id : ℕ
  pub supervisor_generation : ℕ
  pub occupied : Bool
  pub value : ℕ

pub record EndpointSnapshot : Type 0 where
  pub object_generation : ℕ
  pub sender_task : ℕ
  pub sender_generation : ℕ
  pub receiver_task : ℕ
  pub receiver_generation : ℕ
  pub occupied : Bool
  pub payload : ℕ

-- `tasks[0]` is `sender` and `tasks[1]` is `receiver`: the supervisor and the workload, in the
-- supervised profile.
pub record Runtime : Type 0 where
  pub profile : RuntimeProfile
  pub sender : TaskSlot
  pub receiver : TaskSlot
  pub queue : RunQueue
  pub endpoint : EndpointSnapshot
  pub manifest : ManifestPublication
  pub broker : ApprovalBroker
  pub effect : SyntheticEffect

pub data TrapOutcome : Type 0 where
  resume switch exit : ℕ → TrapOutcome

-- `TaskState as u8`, for `==`.
abbrev pub task_code : TaskState → ℕ
task_code staged = 0
task_code ready = 1
task_code running = 2
task_code blocked_receive = 3
task_code blocked_approval = 4
task_code exited = 5
task_code TaskState.dead = 6

infix 50 ◌in_state◌
abbrev pub ◌in_state◌ : TaskSlot → TaskState → Bool
t in_state s = task_code t.state == task_code s

abbrev pub broker_code : ApprovalBrokerState → ℕ
broker_code building = 0
broker_code empty = 1
broker_code pending = 2
broker_code approved = 3
broker_code closing = 4
broker_code dead = 5

infix 50 ◌in_phase◌
abbrev pub ◌in_phase◌ : ApprovalBroker → ApprovalBrokerState → Bool
b in_phase s = broker_code b.state == broker_code s

abbrev pub is_supervised : RuntimeProfile → Bool
is_supervised cooperative = false
is_supervised supervised = true

abbrev pub default_request : ApprovalRequestV1
default_request = record {
  principal_id = 0;
  workload_task_id = 0;
  workload_generation = 0;
  sequence = 0;
  action_id = 0;
  effect_object_id = 0;
  effect_object_generation = 0;
  argument = 0;
  requested_rights = 0;
  resulting_rights = 0;
}

abbrev pub empty_manifest : ManifestPublication
empty_manifest = record {
  manifest_id = 0;
  principal_id = 0;
  target_task_id = 0;
  target_generation = 0;
  image_id = 0;
  published = false;
}

-- `ApprovalBroker::DEAD`.
abbrev pub dead_broker : ApprovalBroker
dead_broker = record {
  state = dead;
  object_generation = 0;
  supervisor_task_id = 0;
  supervisor_generation = 0;
  workload_task_id = 0;
  workload_generation = 0;
  request_kind = 0;
  request = default_request;
  request_present = false;
  next_sequence = 0;
  sequence_exhausted = false;
  decision_epoch = 0;
  approval_epoch = 0;
  expiry_epoch = 0;
}

-- `ApprovalBroker::building`.
abbrev pub building_broker : ℕ → ℕ → ApprovalBroker
building_broker supervisor workload = record dead_broker {
  state = building;
  object_generation = fixed_object_generation;
  supervisor_task_id = sender_task_id;
  supervisor_generation = supervisor;
  workload_task_id = receiver_task_id;
  workload_generation = workload;
  next_sequence = 1;
  decision_epoch = 1;
}

-- `ApprovalBroker::clear_request`.
abbrev pub clear_request : ApprovalBroker → ApprovalBroker
clear_request b = record b {
  request_kind = 0;
  request = default_request;
  request_present = false;
  approval_epoch = 0;
  expiry_epoch = 0;
}

abbrev pub empty_effect : SyntheticEffect
empty_effect = record {
  object_generation = 0;
  supervisor_task_id = 0;
  supervisor_generation = 0;
  occupied = false;
  value = 0;
}

abbrev pub empty_endpoint : EndpointSnapshot
empty_endpoint = record {
  object_generation = 0;
  sender_task = 0;
  sender_generation = 0;
  receiver_task = 0;
  receiver_generation = 0;
  occupied = false;
  payload = 0;
}

-- `Runtime::slot`.
unfoldable pub slot : Runtime → ℕ → Result RuntimeError TaskSlot
slot r task =
    if task == sender_task_id
    then ok r.sender
    else if task == receiver_task_id
    then ok r.receiver
    else err invalid_task

-- A change of a task through `Runtime::slot_mut`.
unfoldable pub change_slot : Runtime → ℕ → (TaskSlot → TaskSlot) → Result RuntimeError Runtime
change_slot r task change =
    if task == sender_task_id
    then ok (record r { sender = change r.sender })
    else if task == receiver_task_id
    then ok (record r { receiver = change r.receiver })
    else err invalid_task

-- `Runtime::set_result`.
unfoldable pub report : Runtime → ℕ → TrapStatus → ℕ → Result RuntimeError Runtime
unfolding change_slot
report r task status value =
    change_slot r task (λ t. record t { context = set_result t.context status value })

-- `self.slot_mut(task)?.state = state`.
unfoldable pub put_state : Runtime → ℕ → TaskState → Result RuntimeError Runtime
unfolding change_slot
put_state r task state = change_slot r task (λ t. record t { state = state })

-- `context(task)?.rax == status`, for one of the two tasks.
abbrev pub answered : Runtime → ℕ → TrapStatus → Bool
answered r task status = elim (slot r task) [
  | err e ↦ false
  | ok t ↦ t.context.rax == status_code status
]
