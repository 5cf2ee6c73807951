-- ===== src/Examples/Runtime.antt =====
-- A supervised runtime whose workload has been launched and runs, and the life of one approval.
use makopa_os.Common.{
  ℕ, ◌≡◌, ◌⊎◌, ◌↔◌, ◌++◌, refl, true, false, some, List, [], ◌∷◌, ok, err, replicate, arith, ◌<◌,
}
use makopa_os.Abi.{ready, running, duplicate_queue_member, queue_full}
use makopa_os.Capabilities.Handle.{decode}
use makopa_os.Capabilities.Rights.{valid_rights}
use makopa_os.Capabilities.Slots.{CapabilitySlot, empty_slot}
use makopa_os.Capabilities.Table.{CapabilityTable, live, resolve_typed}
use makopa_os.Capabilities.Table
use makopa_os.Contexts.{TaskContextV1, ContextPolicy, initial, set_result, is_canonical_48}
use makopa_os.Contexts
use makopa_os.Contexts.Policy.{IsRunnable, context_accepted_iff}
use makopa_os.Manifest.{registered_launch_manifest}
use makopa_os.Manifest
use makopa_os.Manifest.Acceptance.{manifest_accepted_iff}
use makopa_os.Runtime.Queue.{empty_queue, push, pop, shift, contains, task_count}
use makopa_os.Runtime.Queue.Order
use makopa_os.Runtime.Queue.Order.{IsQueue, push_lem, fifo_order, pushes, pops, empty_log, waiting}
use makopa_os.Runtime.State.{
  Runtime, supervised, building_broker, empty_endpoint, resume, switch, slot, change_slot, report,
  put_state, ApprovalBrokerState,
}
use makopa_os.Runtime.Validate.{validate, validate_slot}
use makopa_os.Runtime.Supervised.{
  validate_supervised, validate_launch, validate_broker, validate_effect,
}
use makopa_os.Runtime.Dispatch.{
  dispatch_next, dispatch_some, enqueue, resolve_object, wake_workload,
}
use makopa_os.Runtime.Frame.{IsFramed}
use makopa_os.Runtime.Approval.{
  answer, submit_refusal, submit_approval, decide_refusal, decide_approval, apply_decision,
  commit_refusal, commit_effect, conclude, inspect_refusal, inspect_approval,
}
use makopa_os.Runtime.Approval.Commit.{IsCommitted, commit_effect_lem}
use makopa_os.Runtime.Approval.Submission.{IsSubmitted, submit_approval_lem}
use makopa_os.Runtime.Approval.Decision.{IsApproved, IsCleared, decide_approval_lem}
use makopa_os.Runtime.Approval.History
use makopa_os.Runtime.Approval.History.{
  Ledger, submits, inspects, decides, commits, fresh_ledger, settled, is_granted,
  effect_needs_consent,
}

abbrev pub slot_with : ℕ → ℕ → ℕ → ℕ → CapabilitySlot
slot_with task generation object_type rights = record {
  generation = 1;
  retired = false;
  entry = some (record {
    task_id = task;
    task_generation = generation;
    object_type = object_type;
    rights = rights;
    object = record { id = 1; generation = 1 };
  });
}

abbrev pub supervisor_table : CapabilityTable
supervisor_table = record {
  task_id = 1;
  task_generation = 4;
  state = live;
  slots = slot_with 1 4 2 8 ∷ slot_with 1 4 3 32 ∷ slot_with 1 4 4 64 ∷ replicate 13 empty_slot;
}

abbrev pub workload_table : CapabilityTable
workload_table = record {
  task_id = 2;
  task_generation = 5;
  state = live;
  slots = slot_with 2 5 3 16 ∷ replicate 15 empty_slot;
}

abbrev pub context_of : ℕ → ℕ → TaskContextV1
context_of task generation = record (Contexts.clear_dead) {
  root = 8192;
  task_id = task;
  generation = generation;
}

-- The workload runs, and the supervisor waits for its turn.
abbrev pub launched : Runtime
launched = record {
  profile = supervised;
  sender = record {
    id = 1;
    generation = 4;
    state = ready;
    context = context_of 1 4;
    capabilities = supervisor_table;
  };
  receiver = record {
    id = 2;
    generation = 5;
    state = running;
    context = context_of 2 5;
    capabilities = workload_table;
  };
  queue = record { entries = 1 ∷ 0 ∷ []; len = 1 };
  endpoint = empty_endpoint;
  manifest = record {
    manifest_id = 1;
    principal_id = 1;
    target_task_id = 2;
    target_generation = 5;
    image_id = 1;
    published = true;
  };
  broker = record (building_broker 4 5) { state = ApprovalBrokerState.empty };
  effect = record {
    object_generation = 1;
    supervisor_task_id = 1;
    supervisor_generation = 4;
    occupied = false;
    value = 0;
  };
}

launched_valid : validate launched ≡ ok tt
unfolding validate validate_slot validate_supervised validate_launch validate_broker validate_effect
    Table.validate valid_rights Table.snapshot contains Contexts.clear_dead initial
launched_valid = refl

-- After each step of the life of an approval for the value 42.
abbrev pub asked : Runtime
asked = settled launched (submit_approval launched 2 16 1 42)

abbrev pub granted : Runtime
granted = settled asked (decide_approval asked 1 17 1 1)

abbrev done : Runtime
done = settled granted (commit_effect granted 1 18 1 42)

asked_switches : submit_approval launched 2 16 1 42 ≡ ok (asked, switch 1)
unfolding submit_approval submit_refusal resolve_object slot resolve_typed decode put_state
    change_slot dispatch_some dispatch_next pop shift validate validate_slot validate_supervised
    validate_launch validate_broker validate_effect Table.validate valid_rights Table.snapshot
    contains Contexts.clear_dead initial
asked_switches = refl

granted_resumes : decide_approval asked 1 17 1 1 ≡ ok (granted, resume 1)
unfolding decide_approval decide_refusal apply_decision answer report set_result submit_approval
    submit_refusal resolve_object slot resolve_typed decode put_state change_slot dispatch_some
    dispatch_next pop shift validate validate_slot validate_supervised validate_launch
    validate_broker validate_effect Table.validate valid_rights Table.snapshot contains
    Contexts.clear_dead initial
granted_resumes = refl

done_resumes : commit_effect granted 1 18 1 42 ≡ ok (done, resume 1)
unfolding commit_effect commit_refusal conclude wake_workload enqueue push decide_approval
    decide_refusal apply_decision answer report set_result submit_approval submit_refusal
    resolve_object slot resolve_typed decode put_state change_slot dispatch_some dispatch_next pop
    shift validate validate_slot validate_supervised validate_launch validate_broker validate_effect
    Table.validate valid_rights Table.snapshot contains Contexts.clear_dead initial
done_resumes = refl

submit_approval_lem_example : IsFramed launched asked ⊎ IsSubmitted launched asked 2 16 42
submit_approval_lem_example = submit_approval_lem launched asked 2 16 1 42 (switch 1) asked_switches

decide_approval_lem_example :
    IsFramed asked granted ⊎ IsCleared asked granted ⊎ IsApproved asked granted 1 17 1 1
decide_approval_lem_example = decide_approval_lem asked granted 1 17 1 1 (resume 1) granted_resumes

commit_effect_lem_example : IsFramed granted done ⊎ IsCommitted granted done 1 18 1 42
commit_effect_lem_example = commit_effect_lem granted done 1 18 1 42 (resume 1) done_resumes

abbrev whole_life : List History.Call
whole_life = submits 2 16 1 42 ∷ decides 1 17 1 1 ∷ inspects 1 17 0 0 ∷ commits 1 18 1 42 ∷ []

effect_taken : (History.run (fresh_ledger launched) whole_life).runtime.effect.occupied ≡ true
unfolding History.run History.step inspect_approval inspect_refusal commit_effect commit_refusal
    conclude wake_workload enqueue push decide_approval decide_refusal apply_decision answer report
    set_result submit_approval submit_refusal resolve_object slot resolve_typed decode put_state
    change_slot dispatch_some dispatch_next pop shift validate validate_slot validate_supervised
    validate_launch validate_broker validate_effect Table.validate valid_rights Table.snapshot
    contains Contexts.clear_dead initial
effect_taken = refl

effect_needs_consent_example :
    is_granted
      (History.run (fresh_ledger launched) whole_life).runtime.effect.value
      (History.run (fresh_ledger launched) whole_life).granted
    ≡ true
effect_needs_consent_example = effect_needs_consent launched whole_life refl refl effect_taken

manifest_accepted_iff_example : (Manifest.validate registered_launch_manifest 5 1 16 ≡ ok tt) ↔ (
    (registered_launch_manifest ≡ registered_launch_manifest)
    × (◌≡◌ {A = ℕ} 5 5)
    × (◌≡◌ {A = ℕ} 1 1)
    × (0 < 16))
manifest_accepted_iff_example = manifest_accepted_iff registered_launch_manifest 5 1 16 refl

abbrev user_policy : ContextPolicy
user_policy = record {
  text_start = 4194304;
  text_end = 4198400;
  stack_start = 8388608;
  stack_end = 8392704;
  user_code = 0x23;
  user_data = 0x1b;
}

context_accepted_iff_example :
    (Contexts.validate (initial 1 4 8192 4194304 8392704 0x23 0x1b) 1 4 8192 user_policy ≡ ok tt)
    ↔ IsRunnable (initial 1 4 8192 4194304 8392704 0x23 0x1b) 1 4 8192 user_policy
unfolding initial
context_accepted_iff_example =
    context_accepted_iff (initial 1 4 8192 4194304 8392704 0x23 0x1b) 1 4 8192 user_policy
      (omega arith) (omega arith)

second_push :
    (((push empty_queue 2).1 ≡ ok tt)
      × (waiting (push empty_queue 2).0 ≡ 2 ∷ [])
      × (false ≡ false)
      × (0 < task_count))
    ⊎ (((push empty_queue 2).1 ≡ err duplicate_queue_member)
        × ((push empty_queue 2).0 ≡ empty_queue)
        × (false ≡ true))
    ⊎ (((push empty_queue 2).1 ≡ err queue_full)
        × ((push empty_queue 2).0 ≡ empty_queue)
        × (◌≡◌ {A = ℕ} 0 2))
second_push = push_lem empty_queue 2 Order.nobody

fifo_order_example :
    ((Order.run empty_log (pushes 2 ∷ pushes 1 ∷ pops ∷ pushes 2 ∷ [])).accepted
      ≡ (Order.run empty_log (pushes 2 ∷ pushes 1 ∷ pops ∷ pushes 2 ∷ [])).given
        ++ waiting (Order.run empty_log (pushes 2 ∷ pushes 1 ∷ pops ∷ pushes 2 ∷ [])).queue)
    × IsQueue (Order.run empty_log (pushes 2 ∷ pushes 1 ∷ pops ∷ pushes 2 ∷ [])).queue
fifo_order_example = fifo_order (pushes 2 ∷ pushes 1 ∷ pops ∷ pushes 2 ∷ [])
