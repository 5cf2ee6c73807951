-- ===== src/Runtime/Construction.antt =====
-- `Runtime::new` and `Runtime::new_supervised`: the first capabilities, published together or not at
-- all. `fail_before_step` is the tests' fault, `none` in the kernel.
pub mod Published
pub mod Started
use makopa_os.Common.{
  ℕ, ◌||◌, ◌&&◌, not, Bool, true, false, Option, none, some, List, [], ◌∷◌, ◌==◌, ◌/=◌, bit_or,
  if◌then◌else◌, Result, ok, err, ◌>>=◌, ◌>>◌, reject_if,
}
use makopa_os.Abi.{
  TaskState, staged, ready, RuntimeError, invalid_task, invalid_generation, duplicate_generation,
  publication_failure, sender_task_id, receiver_task_id, endpoint_generation, right_send,
  right_receive, right_duplicate, right_start, right_decide_approval, right_commit_effect,
  object_type_task_control, object_type_approval_broker, object_type_test_effect,
  approval_broker_object_id, fixed_object_generation,
}
use makopa_os.Capabilities.Table.{
  CapabilityTable, building_table, dead_table, install_building, install_object_building, publish,
  rollback_install,
}
use makopa_os.Contexts.{TaskContextV1, clear_dead}
use makopa_os.Manifest.{expected_workload_generation}
use makopa_os.Runtime.Queue.{empty_queue, push}
use makopa_os.Runtime.State.{
  TaskSlot, cooperative, supervised, empty, EndpointSnapshot, SyntheticEffect, Runtime,
  empty_manifest, dead_broker, building_broker, empty_effect, empty_endpoint, slot,
}
use makopa_os.Runtime.Shapes.{expected_supervisor_generation, test_effect_object_id}
use makopa_os.Runtime.Launch.{task_control_object_id}
use makopa_os.Runtime.Validate.{validate}

abbrev new_slot : ℕ → TaskState → TaskContextV1 → TaskSlot
new_slot id state context = record {
  id = id;
  generation = context.generation;
  state = state;
  context = context;
  capabilities = building_table id context.generation;
}

unfoldable pub unpublished : TaskContextV1 → TaskContextV1 → Runtime
unpublished sender receiver = record {
  profile = cooperative;
  sender = new_slot sender_task_id ready sender;
  receiver = new_slot receiver_task_id ready receiver;
  queue = empty_queue;
  endpoint = empty_endpoint;
  manifest = empty_manifest;
  broker = dead_broker;
  effect = empty_effect;
}

unfoldable pub unpublished_supervised : TaskContextV1 → TaskContextV1 → Runtime
unpublished_supervised supervisor workload = record {
  profile = supervised;
  sender = new_slot sender_task_id ready supervisor;
  receiver = new_slot receiver_task_id staged workload;
  queue = empty_queue;
  endpoint = empty_endpoint;
  manifest = empty_manifest;
  broker = building_broker supervisor.generation workload.generation;
  effect = record {
    object_generation = fixed_object_generation;
    supervisor_task_id = sender_task_id;
    supervisor_generation = supervisor.generation;
    occupied = false;
    value = 0;
  };
}

-- `self.slot_mut(task)` and an operation on its table; what the operation writes stays on an error.
unfoldable pub with_table {ℓ} :
    {A : Type ℓ}
    → Runtime
    → ℕ
    → (CapabilityTable → CapabilityTable × Result RuntimeError A)
    → Runtime × Result RuntimeError A
with_table r task operate =
    if task == sender_task_id
    then (let (t, result) = operate r.sender.capabilities in
        (record r { sender = record r.sender { capabilities = t } }, result))
    else if task == receiver_task_id
    then (let (t, result) = operate r.receiver.capabilities in
        (record r { receiver = record r.receiver { capabilities = t } }, result))
    else (r, err invalid_task)

-- `fail_before_step == Some(step)`.
abbrev pub fails_at : Option ℕ → ℕ → Bool
fails_at none step = false
fails_at (some k) step = k == step

-- A task after a publication is rolled back.
abbrev pub cleared_slot : TaskSlot → TaskSlot
cleared_slot t = record t {
  state = TaskState.dead;
  generation = 0;
  context = clear_dead;
  capabilities = dead_table;
}

-- The loop over `installed[..len].iter().rev()`: the handle installed last comes first.
unfoldable pub uninstall : List (ℕ × ℕ) → Runtime → Runtime
unfolding with_table
uninstall [] r = r
uninstall ((task, handle) ∷ rest) r =
    uninstall rest (with_table {A = Unit {0}} r task (λ t. (rollback_install t handle, ok tt))).0

unfoldable pub rollback_publication : Runtime → List (ℕ × ℕ) → Runtime
unfolding uninstall
rollback_publication r installed =
    let r₁ = uninstall installed r in
    record r₁ {
      sender = cleared_slot r₁.sender;
      receiver = cleared_slot r₁.receiver;
      queue = empty_queue;
      endpoint = empty_endpoint;
      manifest = empty_manifest;
      broker = dead_broker;
      effect = empty_effect;
    }

-- The endpoint stays as it is: a supervised runtime has not written it.
unfoldable pub rollback_supervisor_publication : Runtime → List (ℕ × ℕ) → Runtime
unfolding uninstall
rollback_supervisor_publication r installed =
    let r₁ = uninstall installed r in
    record r₁ {
      sender = cleared_slot r₁.sender;
      receiver = cleared_slot r₁.receiver;
      queue = empty_queue;
      manifest = empty_manifest;
      broker = dead_broker;
      effect = empty_effect;
    }

-- One capability to install: the step, the task and the operation on its table.
pub record Grant : Type 0 where
  pub step : ℕ
  pub task : ℕ
  pub install : CapabilityTable → CapabilityTable × Result RuntimeError ℕ

-- The loops that install, with the handles installed so far.
unfoldable pub install_grants :
    Option ℕ
    → List Grant
    → Runtime
    → List (ℕ × ℕ)
    → Runtime × List (ℕ × ℕ) × Result RuntimeError (Unit {0})
unfolding with_table
install_grants fault [] r installed = (r, installed, ok tt)
install_grants fault (g ∷ gs) r installed =
    let rest =
      λ (s : Runtime) (handle : ℕ). install_grants fault gs s ((g.task, handle) ∷ installed) in
    if fails_at fault g.step
    then (r, installed, err publication_failure)
    else (let (s, result) = with_table r g.task g.install in
        elim result [ ok handle ↦ rest s handle | err e ↦ (s, installed, err e) ])

abbrev pub initial_grants : List Grant
initial_grants =
    record {
      step = 0;
      task = sender_task_id;
      install = λ t. install_building t (bit_or right_send right_duplicate);
    }
    ∷ record { step = 1; task = receiver_task_id; install = λ t. install_building t right_receive }
    ∷ []

abbrev object_grant : ℕ → ℕ → ℕ → ℕ → Grant
object_grant step object_type object_id rights = record {
  step = step;
  task = sender_task_id;
  install = λ t.
      install_object_building t object_type
        (record { id = object_id; generation = fixed_object_generation }) rights;
}

abbrev pub supervisor_grants : List Grant
supervisor_grants =
    object_grant 0 object_type_task_control task_control_object_id right_start
    ∷ object_grant 1 object_type_approval_broker approval_broker_object_id right_decide_approval
    ∷ object_grant 2 object_type_test_effect test_effect_object_id right_commit_effect
    ∷ []

-- `step.and_then(..)` on a runtime that keeps what the steps have written.
abbrev pub and_then :
    Runtime × Result RuntimeError (Unit {0})
    → (Runtime → Runtime × Result RuntimeError (Unit {0}))
    → Runtime × Result RuntimeError (Unit {0})
and_then (r, ok u) k = k r
and_then (r, err e) k = (r, err e)

unfoldable pub push_task : Runtime → ℕ → Runtime × Result RuntimeError (Unit {0})
push_task r task = let (q, result) = push r.queue task in (record r { queue = q }, result)

abbrev pub check : Runtime → Runtime × Result RuntimeError (Unit {0})
check r = (r, validate r)

abbrev pub fail_if : Bool → Runtime → Runtime × Result RuntimeError (Unit {0})
fail_if true r = (r, err publication_failure)
fail_if false r = (r, ok tt)

abbrev pub first_endpoint : Runtime → EndpointSnapshot
first_endpoint r = record {
  object_generation = endpoint_generation;
  sender_task = sender_task_id;
  sender_generation = r.sender.generation;
  receiver_task = receiver_task_id;
  receiver_generation = r.receiver.generation;
  occupied = false;
  payload = 0;
}

-- The steps of `publish_initial` after the loop; each error is followed by the same rollback.
unfoldable pub publish_initial_tables :
    Option ℕ → Runtime → Runtime × Result RuntimeError (Unit {0})
unfolding with_table push_task
publish_initial_tables fault r =
    and_then
      (and_then
        (and_then
          (and_then
            (and_then (fail_if (fails_at fault 2) r) (λ s. with_table s sender_task_id publish))
            (λ s. with_table s receiver_task_id publish))
          (λ s. push_task (record s { endpoint = first_endpoint s }) receiver_task_id))
        (λ s. push_task s sender_task_id))
      check

-- An error of a later step is followed by the same rollback.
abbrev pub finish_initial :
    List (ℕ × ℕ)
    → Runtime × Result RuntimeError (Unit {0})
    → Runtime × Result RuntimeError (Unit {0})
finish_initial installed (r, ok u) = (r, ok tt)
finish_initial installed (r, err e) = (rollback_publication r installed, err e)

unfoldable pub publish_initial : Runtime → Option ℕ → Runtime × Result RuntimeError (Unit {0})
unfolding install_grants publish_initial_tables rollback_publication
publish_initial r fault =
    let (s, installed, granted) = install_grants fault initial_grants r [] in
    elim granted [
      | err e ↦ (rollback_publication s installed, err e)
      | ok u ↦ finish_initial installed (publish_initial_tables fault s)
    ]

unfoldable pub publish_supervisor_table :
    Option ℕ → Runtime → Runtime × Result RuntimeError (Unit {0})
unfolding with_table push_task
publish_supervisor_table fault r =
    and_then
      (and_then
        (and_then
          (and_then (fail_if (fails_at fault 3) r) (λ s. with_table s sender_task_id publish))
          (λ s.
            fail_if (fails_at fault 4) (record s { broker = record s.broker { state = empty } })))
        (λ s. push_task s sender_task_id))
      check

-- An error of a later step is followed by the same rollback.
abbrev pub finish_supervisor :
    List (ℕ × ℕ)
    → Runtime × Result RuntimeError (Unit {0})
    → Runtime × Result RuntimeError (Unit {0})
finish_supervisor installed (r, ok u) = (r, ok tt)
finish_supervisor installed (r, err e) = (rollback_supervisor_publication r installed, err e)

unfoldable pub publish_supervisor : Runtime → Option ℕ → Runtime × Result RuntimeError (Unit {0})
unfolding install_grants publish_supervisor_table rollback_supervisor_publication
publish_supervisor r fault =
    let (s, installed, granted) = install_grants fault supervisor_grants r [] in
    elim granted [
      | err e ↦ (rollback_supervisor_publication s installed, err e)
      | ok u ↦ finish_supervisor installed (publish_supervisor_table fault s)
    ]

-- `?` and `Ok(runtime)`.
abbrev pub constructed : Runtime × Result RuntimeError (Unit {0}) → Result RuntimeError Runtime
constructed (r, ok u) = ok r
constructed (r, err e) = err e

unfoldable pub construct : TaskContextV1 → TaskContextV1 → Option ℕ → Result RuntimeError Runtime
unfolding unpublished publish_initial
construct sender receiver fault = constructed (publish_initial (unpublished sender receiver) fault)

unfoldable pub construct_supervised :
    TaskContextV1 → TaskContextV1 → Option ℕ → Result RuntimeError Runtime
unfolding unpublished_supervised publish_supervisor
construct_supervised supervisor workload fault =
    constructed (publish_supervisor (unpublished_supervised supervisor workload) fault)

unfoldable pub new : TaskContextV1 → TaskContextV1 → Result RuntimeError Runtime
unfolding construct
new sender receiver = do
  reject_if (sender.task_id /= sender_task_id || receiver.task_id /= receiver_task_id) invalid_task
  reject_if (sender.generation == 0 || receiver.generation == 0) invalid_generation
  reject_if (sender.generation == receiver.generation) duplicate_generation
  construct sender receiver none

unfoldable pub new_supervised : TaskContextV1 → TaskContextV1 → Result RuntimeError Runtime
unfolding construct_supervised
new_supervised supervisor workload = do
  reject_if (supervisor.task_id /= sender_task_id || workload.task_id /= receiver_task_id)
      invalid_task
  reject_if
      (supervisor.generation /= expected_supervisor_generation
        || workload.generation /= expected_workload_generation)
      invalid_generation
  construct_supervised supervisor workload none
