-- ===== src/Runtime/Launch.antt =====
-- `start_workload`: the supervisor launches the staged workload by the registered manifest. The faults
-- that the tests of the source inject (`fail_before_step`) are left out: `start_workload` passes `None`.
pub mod Atomicity
use makopa_os.Common.{
  ℕ, ◌||◌, ◌&&◌, not, Bool, true, false, Option, none, some, List, [], ◌∷◌, ◌==◌, ◌/=◌,
  if◌then◌else◌, Result, ok, err, ◌>>=◌, ◌>>◌, is_err,
}
use makopa_os.Abi.{
  TaskState, staged, ready, RuntimeError, TrapStatus, invalid_operation, wrong_object,
  invalid_manifest, already_launched, receiver_task_id, fixed_object_generation,
  object_type_task_control, right_start,
}
use makopa_os.Capabilities.Slots.{ObjectReference}
use makopa_os.Capabilities.Table.{
  CapabilityTable, available_slots, install_object_building, publish,
}
use makopa_os.Manifest.{
  LaunchRouteV1, registered_launch_manifest, manifest_identity, principal_identity,
  workload_image_identity, expected_workload_generation,
}
use makopa_os.Manifest
use makopa_os.Runtime.Queue.{first}
use makopa_os.Runtime.State.{
  TaskSlot, ManifestPublication, Runtime, TrapOutcome, resume, ◌in_state◌, is_supervised, report,
}
use makopa_os.Runtime.Dispatch.{enqueue, resolve_object}
use makopa_os.Runtime.Approval.{Trap, answer}

abbrev pub task_control_object_id : ℕ
task_control_object_id = 1

-- `*self = before; self.set_result(task, status, 0)?; return Ok(Resume(task))`.
unfoldable pub refuse : Runtime → ℕ → TrapStatus → Trap
unfolding report
refuse r task status = do r' ← report r task status 0; ok (r', resume task)

unfoldable pub start_refusal : Runtime → ℕ → ℕ → ℕ → ℕ → Option TrapStatus
start_refusal r task handle manifest_id reserved =
    if reserved /= 0
    then some invalid_operation
    else if not (is_supervised r.profile)
    then some wrong_object
    else elim (resolve_object r task handle object_type_task_control right_start
        task_control_object_id fixed_object_generation) [
          | err status ↦ some status
          | ok u ↦
              if manifest_id /= manifest_identity
              then some invalid_manifest
              else if not (r.receiver in_state staged)
              then some already_launched
              else if is_err (
                  Manifest.validate registered_launch_manifest r.receiver.generation
                    r.broker.object_generation (available_slots r.receiver.capabilities))
              then some invalid_manifest
              else none
        ]

-- The loop over the routes of the manifest.
unfoldable pub install_routes :
    CapabilityTable → List LaunchRouteV1 → Result RuntimeError CapabilityTable
install_routes t [] = ok t
install_routes t (route ∷ routes) =
    let (t', installed) =
      install_object_building t route.object_type
        (record { id = route.object_id; generation = route.object_generation }) route.rights in
    let rest = install_routes t' routes in elim installed [ err e ↦ err e | ok raw ↦ rest ]

abbrev pub published_manifest : ManifestPublication
published_manifest = record {
  manifest_id = manifest_identity;
  principal_id = principal_identity;
  target_task_id = receiver_task_id;
  target_generation = expected_workload_generation;
  image_id = workload_image_identity;
  published = true;
}

-- The routes installed and the table published.
unfoldable pub launched_table : CapabilityTable → Result RuntimeError CapabilityTable
unfolding install_routes
launched_table t = do
  t₁ ←
      install_routes t
        (first registered_launch_manifest.route_count registered_launch_manifest.routes)
  let (t₂, published) = publish t₁
  published
  ok t₂

unfoldable pub start_workload : Runtime → ℕ → ℕ → ℕ → ℕ → Trap
unfolding refuse start_refusal launched_table answer
start_workload r task handle manifest_id reserved =
    elim (start_refusal r task handle manifest_id reserved) [
      | some status ↦ refuse r task status
      | none ↦ elim (launched_table r.receiver.capabilities) [
        | err e ↦ refuse r task invalid_manifest
        | ok table ↦ do
          r' ←
              enqueue
                (record r {
                  manifest = published_manifest;
                  receiver = record r.receiver { state = ready; capabilities = table };
                })
                receiver_task_id
          answer r' task TrapStatus.ok 0
      ]
    ]
