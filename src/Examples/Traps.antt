-- ===== src/Examples/Traps.antt =====
-- A launch, a message to a receiver that waits, and a commit that a task asks for by a trap.
use makopa_os.Common.{◌≡◌, ◌⊎◌, refl, false, ◌∷◌, ok, replicate}
use makopa_os.Abi.{staged, running, blocked_receive}
use makopa_os.Capabilities.Handle.{decode}
use makopa_os.Capabilities.Rights.{valid_rights}
use makopa_os.Capabilities.Slots.{empty_slot}
use makopa_os.Capabilities.Table.{
  CapabilityTable, live, building, building_table, resolve_typed, resolve,
}
use makopa_os.Capabilities.Table
use makopa_os.Contexts.{TaskContextV1, initial, set_result}
use makopa_os.Contexts
use makopa_os.Manifest
use makopa_os.Runtime.Queue.{empty_queue, push, contains}
use makopa_os.Runtime.State.{
  Runtime, cooperative, empty_manifest, dead_broker, empty_effect, resume, slot, change_slot,
  report, put_state,
}
use makopa_os.Runtime.Cooperative.{validate_cooperative}
use makopa_os.Runtime.Validate.{validate, validate_slot}
use makopa_os.Runtime.Dispatch.{enqueue, resolve_endpoint}
use makopa_os.Runtime.Approval.{answer}
use makopa_os.Runtime.Approval.History.{settled}
use makopa_os.Runtime.Launch.{start_workload}
use makopa_os.Runtime.Messages.{send, send_refusal, deliver}
use makopa_os.Runtime.Messages.Delivery.{IsRefused, IsSent, send_lem}
use makopa_os.Runtime.Traps.{handle_trap}
use makopa_os.Runtime.Traps.Effects.{IsWrittenByCommit, handle_trap_lem}
use makopa_os.Examples.Runtime.{slot_with, context_of, launched, granted}

-- The supervisor runs, and the workload is staged.
abbrev staged_runtime : Runtime
staged_runtime = record launched {
  sender = record launched.sender { state = running };
  receiver = record launched.receiver { state = staged; capabilities = building_table 2 5 };
  queue = empty_queue;
  manifest = empty_manifest;
}

abbrev started_runtime : Runtime
started_runtime = settled staged_runtime (start_workload staged_runtime 1 16 1 0)

-- The sender runs, and the receiver waits for a message.
abbrev two_tasks : Runtime
two_tasks = record {
  profile = cooperative;
  sender = record {
    id = 1;
    generation = 4;
    state = running;
    context = context_of 1 4;
    capabilities = record {
      task_id = 1;
      task_generation = 4;
      state = live;
      slots = slot_with 1 4 1 5 ∷ replicate 15 empty_slot;
    };
  };
  receiver = record {
    id = 2;
    generation = 5;
    state = blocked_receive;
    context = context_of 2 5;
    capabilities = record {
      task_id = 2;
      task_generation = 5;
      state = live;
      slots = slot_with 2 5 1 2 ∷ replicate 15 empty_slot;
    };
  };
  queue = empty_queue;
  endpoint = record {
    object_generation = 1;
    sender_task = 1;
    sender_generation = 4;
    receiver_task = 2;
    receiver_generation = 5;
    occupied = false;
    payload = 0;
  };
  manifest = empty_manifest;
  broker = dead_broker;
  effect = empty_effect;
}

abbrev after_send : Runtime
after_send = settled two_tasks (send two_tasks 1 16 7 0)

sends : send two_tasks 1 16 7 0 ≡ ok (after_send, resume 1)
unfolding send send_refusal deliver resolve_endpoint resolve enqueue push put_state answer report
    change_slot set_result slot resolve_typed decode validate validate_slot validate_cooperative
    Table.validate valid_rights contains Contexts.clear_dead initial
sends = refl

send_lem_example : IsRefused two_tasks after_send 1 ⊎ IsSent two_tasks after_send 16 7
send_lem_example = send_lem two_tasks after_send 16 7 0 (resume 1) sends

-- The supervisor traps with a commit of the approved value in its registers.
abbrev pub asking : Runtime
asking = record granted {
  sender = record granted.sender {
    context = record granted.sender.context { rax = 10; rdi = 18; rsi = 1; rdx = 42 };
  };
}

handle_trap_lem_example :
    ((handle_trap asking 1).0.effect ≡ asking.effect)
    ⊎ IsWrittenByCommit asking (handle_trap asking 1).0 1
handle_trap_lem_example = handle_trap_lem asking 1
