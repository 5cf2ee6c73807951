-- ===== src/Runtime/Shapes.antt =====
-- Fixed identities of the supervised profile, and the derived comparisons of the parts of `Runtime`
-- with their empty values.
use makopa_os.Common.{ℕ, ◌||◌, ◌&&◌, not, Bool, true, false, ◌==◌}
use makopa_os.Abi.{TaskState, receiver_task_id}
use makopa_os.Capabilities.Table.{CapabilityTable, live, closing, ◌is◌, ◌is_not◌, snapshot}
use makopa_os.Capabilities.Table
use makopa_os.Journal.Records.{ApprovalRequestV1}
use makopa_os.Manifest.{
  manifest_identity, principal_identity, workload_image_identity, expected_workload_generation,
}
use makopa_os.Runtime.State.{
  ApprovalBrokerState, ManifestPublication, ApprovalBroker, SyntheticEffect, EndpointSnapshot,
  Runtime, ◌in_state◌, ◌in_phase◌,
}

abbrev pub expected_supervisor_generation : ℕ
expected_supervisor_generation = 4

abbrev pub request_kind_commit_synthetic_value : ℕ
request_kind_commit_synthetic_value = 1

abbrev pub action_id_commit_synthetic_value : ℕ
action_id_commit_synthetic_value = 1

abbrev pub test_effect_object_id : ℕ
test_effect_object_id = 1

-- The derived `==` against the empty values.
abbrev pub is_empty_manifest : ManifestPublication → Bool
is_empty_manifest m =
    m.manifest_id == 0
    && m.principal_id == 0
    && m.target_task_id == 0
    && m.target_generation == 0
    && m.image_id == 0
    && not m.published

-- The same against the publication of the registered manifest.
abbrev pub is_registered : ManifestPublication → Bool
is_registered m =
    m.manifest_id == manifest_identity
    && m.principal_id == principal_identity
    && m.target_task_id == receiver_task_id
    && m.target_generation == expected_workload_generation
    && m.image_id == workload_image_identity
    && m.published

abbrev pub is_default_request : ApprovalRequestV1 → Bool
is_default_request r =
    r.principal_id == 0
    && r.workload_task_id == 0
    && r.workload_generation == 0
    && r.sequence == 0
    && r.action_id == 0
    && r.effect_object_id == 0
    && r.effect_object_generation == 0
    && r.argument == 0
    && r.requested_rights == 0
    && r.resulting_rights == 0

abbrev pub is_dead_broker : ApprovalBroker → Bool
is_dead_broker b =
    b in_phase ApprovalBrokerState.dead
    && b.object_generation == 0
    && b.supervisor_task_id == 0
    && b.supervisor_generation == 0
    && b.workload_task_id == 0
    && b.workload_generation == 0
    && b.request_kind == 0
    && is_default_request b.request
    && not b.request_present
    && b.next_sequence == 0
    && not b.sequence_exhausted
    && b.decision_epoch == 0
    && b.approval_epoch == 0
    && b.expiry_epoch == 0

abbrev pub is_empty_effect : SyntheticEffect → Bool
is_empty_effect e =
    e.object_generation == 0
    && e.supervisor_task_id == 0
    && e.supervisor_generation == 0
    && not e.occupied
    && e.value == 0

abbrev pub is_empty_endpoint : EndpointSnapshot → Bool
is_empty_endpoint e =
    e.object_generation == 0
    && e.sender_task == 0
    && e.sender_generation == 0
    && e.receiver_task == 0
    && e.receiver_generation == 0
    && not e.occupied
    && e.payload == 0

-- `bool != bool`.
abbrev pub differs : Bool → Bool → Bool
differs true b = not b
differs false b = b

abbrev pub all_dead : Runtime → Bool
all_dead r = r.sender in_state TaskState.dead && r.receiver in_state TaskState.dead

abbrev pub is_gone : CapabilityTable → Bool
is_gone t = t.state is closing || t.state is Table.dead
