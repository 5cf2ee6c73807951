-- ===== src/Runtime/Construction/Started.antt =====
-- Which contexts `new_supervised` accepts, and the runtime that it makes of them.
use makopa_os.Common.{
  ok_injective, ◌↔◌, replicate, ℕ, ◌≡◌, refl, false, none, some, List, [], ◌∷◌, ◌==◌, arith, Result,
  ok, err, inl, inr, Result-cases, sym, ◌∙◌, ap, subst,
}
use makopa_os.Contexts.{TaskContextV1}
use makopa_os.Capabilities.Handle.{from_parts, decode}
use makopa_os.Capabilities.Rights.{valid_rights}
use makopa_os.Capabilities.Table
use makopa_os.Capabilities.Table.{
  CapabilityTable, live, allocate, install_object_building, install_building, publish,
  building_table, snapshot,
}
use makopa_os.Runtime.Queue.{push, contains}
use makopa_os.Runtime.State.{
  Runtime, supervised, empty_endpoint, empty_manifest, building_broker, ApprovalBrokerState,
}
use makopa_os.Abi.{ready, staged, RuntimeError}
use makopa_os.Capabilities.Slots.{position, CapabilitySlot, empty_slot}
use makopa_os.Runtime.Validate.{validate, validate_slot}
use makopa_os.Runtime.Supervised.{
  validate_supervised, validate_launch, validate_broker, validate_effect,
}
use makopa_os.Runtime.Construction.{
  publish_supervisor, publish_supervisor_table, install_grants, with_table, push_task, constructed,
  finish_supervisor, construct_supervised, new_supervised, unpublished_supervised,
}

abbrev pub supervisor_of : TaskContextV1 → TaskContextV1
supervisor_of c = record c { task_id = 1; generation = 4 }

abbrev pub workload_of : TaskContextV1 → TaskContextV1
workload_of d = record d { task_id = 2; generation = 5 }

-- A slot that holds a capability of the supervisor for the object 1.
abbrev pub supervisor_slot : ℕ → ℕ → CapabilitySlot
supervisor_slot object_type rights = record {
  generation = 1;
  retired = false;
  entry = some (record {
    task_id = 1;
    task_generation = 4;
    object_type = object_type;
    rights = rights;
    object = record { id = 1; generation = 1 };
  });
}

abbrev pub supervisor_table : CapabilityTable
supervisor_table = record {
  task_id = 1;
  task_generation = 4;
  state = live;
  slots =
      supervisor_slot 2 8 ∷ supervisor_slot 3 32 ∷ supervisor_slot 4 64 ∷ replicate 13 empty_slot;
}

abbrev pub started_table : ℕ → ℕ → CapabilityTable
started_table task generation = record {
  task_id = task;
  task_generation = generation;
  state = Table.building;
  slots = replicate 16 empty_slot;
}

-- The runtime that a publication without a fault reaches.
abbrev pub started : TaskContextV1 → TaskContextV1 → Runtime
started c d = record {
  profile = supervised;
  sender = record {
    id = 1;
    generation = 4;
    state = ready;
    context = supervisor_of c;
    capabilities = supervisor_table;
  };
  receiver = record {
    id = 2;
    generation = 5;
    state = staged;
    context = workload_of d;
    capabilities = started_table 2 5;
  };
  queue = record { entries = 1 ∷ 0 ∷ []; len = 1 };
  endpoint = empty_endpoint;
  manifest = empty_manifest;
  broker = record (building_broker 4 5) { state = ApprovalBrokerState.empty };
  effect = record {
    object_generation = 1;
    supervisor_task_id = 1;
    supervisor_generation = 4;
    occupied = false;
    value = 0;
  };
}

-- `constructed`, after the last step of a publication.
abbrev after_check : Runtime → Result RuntimeError (Unit {0}) → Result RuntimeError Runtime
after_check r (ok u) = ok r
after_check r (err e) = err e

constructed_finish :
    (installed : List (ℕ × ℕ)) (r : Runtime) (checked : Result RuntimeError (Unit {0}))
    → constructed (finish_supervisor installed (r, checked)) ≡ after_check r checked
constructed_finish installed r (ok u) = refl
constructed_finish installed r (err e) = refl

construct_supervised-started :
    (c d : TaskContextV1)
    → construct_supervised (supervisor_of c) (workload_of d) none
      ≡ after_check (started c d) (validate (started c d))
unfolding construct_supervised publish_supervisor unpublished_supervised install_grants with_table
    publish_supervisor_table push_task push contains position allocate install_object_building
    publish building_table from_parts valid_rights
construct_supervised-started c d =
    constructed_finish ((1, 18) ∷ (1, 17) ∷ (1, 16) ∷ []) (started c d) (validate (started c d))

supervisor_table_valid : Table.validate supervisor_table ≡ ok tt
unfolding Table.validate decode from_parts valid_rights snapshot
supervisor_table_valid = refl

building_table_valid : Table.validate (started_table 2 5) ≡ ok tt
unfolding Table.validate decode from_parts valid_rights snapshot
building_table_valid = refl

sender_fits :
    (c d : TaskContextV1)
    → (c.root == 0) ≡ false
    → validate_slot (started c d).queue (started c d).sender ≡ ok tt
unfolding validate_slot contains
sender_fits c d hc = ground (arith, supervisor_table_valid)

receiver_fits :
    (c d : TaskContextV1)
    → (d.root == 0) ≡ false
    → validate_slot (started c d).queue (started c d).receiver ≡ ok tt
unfolding validate_slot contains
receiver_fits c d hd = ground (arith, building_table_valid)

started_valid :
    (c d : TaskContextV1)
    → (c.root == 0) ≡ false
    → (d.root == 0) ≡ false
    → validate (started c d) ≡ ok tt
unfolding validate validate_supervised validate_launch validate_broker validate_effect snapshot
started_valid c d hc hd = rw (sender_fits c d hc, receiver_fits c d hd) refl

root_of_sender :
    (c d : TaskContextV1)
    → validate_slot (started c d).queue (started c d).sender ≡ ok tt
    → (c.root == 0) ≡ false
unfolding validate_slot contains
root_of_sender c d e = ground (arith, supervisor_table_valid)

root_of_receiver :
    (c d : TaskContextV1)
    → validate_slot (started c d).queue (started c d).receiver ≡ ok tt
    → (d.root == 0) ≡ false
unfolding validate_slot contains
root_of_receiver c d e = ground (arith, building_table_valid)

started_roots :
    (c d : TaskContextV1)
    → validate (started c d) ≡ ok tt
    → ((c.root == 0) ≡ false) × ((d.root == 0) ≡ false)
unfolding validate
started_roots c d e = elim (Result-cases (validate_slot (started c d).queue (started c d).sender)) [
  | inr (x, bad) ↦ absurd (ground arith)
  | inl (u, sender) ↦
      elim (Result-cases (validate_slot (started c d).queue (started c d).receiver)) [
        | inr (x, bad) ↦ absurd (ground arith)
        | inl (v, receiver) ↦ (root_of_sender c d sender, root_of_receiver c d receiver)
      ]
]

as_supervisor : (c : TaskContextV1) → c.task_id ≡ 1 → c.generation ≡ 4 → c ≡ supervisor_of c
as_supervisor c i g = grind arith

as_workload : (d : TaskContextV1) → d.task_id ≡ 2 → d.generation ≡ 5 → d ≡ workload_of d
as_workload d i g = grind arith

construct_at :
    (c d c' d' : TaskContextV1) (r : Runtime)
    → c ≡ c'
    → d ≡ d'
    → construct_supervised c d none ≡ ok r
    → construct_supervised c' d' none ≡ ok r
construct_at c d c' d' r p q e =
    subst (λ (x : TaskContextV1). construct_supervised x d' none ≡ ok r) p
      (subst (λ (x : TaskContextV1). construct_supervised c x none ≡ ok r) q e)

after_check-ok :
    (s : Runtime) (checked : Result RuntimeError (Unit {0})) (r : Runtime)
    → after_check s checked ≡ ok r
    → (checked ≡ ok tt) × (s ≡ r)
after_check-ok s (ok u) r e = (refl, ok_injective e)
after_check-ok s (err x) r e = absurd (cc)

new_parts :
    (c d : TaskContextV1) (r : Runtime)
    → new_supervised c d ≡ ok r
    → (c.task_id ≡ 1)
      × (d.task_id ≡ 2)
      × (c.generation ≡ 4)
      × (d.generation ≡ 5)
      × (construct_supervised c d none ≡ ok r)
unfolding new_supervised
new_parts c d r e = ground arith

new_by_parts :
    (c d : TaskContextV1) (r : Runtime)
    → c.task_id ≡ 1
    → d.task_id ≡ 2
    → c.generation ≡ 4
    → d.generation ≡ 5
    → construct_supervised c d none ≡ ok r
    → new_supervised c d ≡ ok r
unfolding new_supervised
new_by_parts c d r i₁ i₂ g₁ g₂ e = ground arith

-- The supervised runtime is made exactly from a supervisor and a workload of the registered ids and
-- generations that have a root each. It validates from the start: the supervisor is ready with the
-- three capabilities for task control, the broker and the effect, the workload is staged with an
-- empty table, and the broker is empty.
pub new_supervised_iff :
    (c d : TaskContextV1) (r : Runtime)
    → (new_supervised c d ≡ ok r) ↔ (
        (c.task_id ≡ 1)
        × (d.task_id ≡ 2)
        × (c.generation ≡ 4)
        × (d.generation ≡ 5)
        × ((c.root == 0) ≡ false)
        × ((d.root == 0) ≡ false)
        × (validate r ≡ ok tt)
        × (started c d ≡ r))
new_supervised_iff c d r = (
  λ e.
      let (i₁, i₂, g₁, g₂, built) = new_parts c d r e in
      let run =
        sym (construct_supervised-started c d)
        ∙ construct_at c d (supervisor_of c) (workload_of d) r (as_supervisor c i₁ g₁)
            (as_workload d i₂ g₂) built in
      let (valid, same) = after_check-ok (started c d) (validate (started c d)) r run in
      let (h₁, h₂) = started_roots c d valid in (i₁, i₂, g₁, g₂, h₁, h₂, rw (← same) valid, same),
  λ (i₁, i₂, g₁, g₂, h₁, h₂, valid, same).
      let run : construct_supervised (supervisor_of c) (workload_of d) none ≡ ok r =
        construct_supervised-started c d
        ∙ rw (started_valid c d h₁ h₂) (ap (λ (x : Runtime). ok x) same) in
      new_by_parts c d r i₁ i₂ g₁ g₂ (
        construct_at (supervisor_of c) (workload_of d) c d r (sym (as_supervisor c i₁ g₁))
          (sym (as_workload d i₂ g₂)) run),
)
