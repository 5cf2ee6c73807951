-- ===== src/Runtime/Supervised.antt =====
-- `Runtime::validate_supervised`.
use makopa_os.Common.{
  ℕ, ◌+◌, ◌||◌, ◌&&◌, not, Bool, false, ◌==◌, ◌/=◌, ltb, if◌then◌else◌, u64_mod, Result, ◌>>◌,
  reject_if,
}
use makopa_os.Abi.{
  TaskState, staged, blocked_receive, blocked_approval, RuntimeError, invalid_generation,
  endpoint_invariant, manifest_invariant, broker_invariant, effect_invariant, sender_task_id,
  receiver_task_id, fixed_object_generation, right_commit_effect,
}
use makopa_os.Capabilities.Table.{CapabilityTable, live, closing, ◌is◌, ◌is_not◌, snapshot}
use makopa_os.Capabilities.Table
use makopa_os.Journal.Records.{ApprovalRequestV1}
use makopa_os.Manifest.{principal_identity, expected_workload_generation}
use makopa_os.Runtime.State.{
  ApprovalBrokerState, building, empty, pending, approved, ApprovalBroker, SyntheticEffect, Runtime,
  ◌in_state◌, ◌in_phase◌,
}
use makopa_os.Runtime.Shapes.{
  expected_supervisor_generation, request_kind_commit_synthetic_value,
  action_id_commit_synthetic_value, test_effect_object_id, is_empty_manifest, is_registered,
  is_default_request, is_dead_broker, is_empty_effect, is_empty_endpoint, all_dead,
}

-- No request stands in the broker.
abbrev pub is_clear : ApprovalBroker → Bool
is_clear b =
    not b.request_present
    && b.request_kind == 0
    && is_default_request b.request
    && b.approval_epoch == 0
    && b.expiry_epoch == 0

-- `saturating_add(1)`.
abbrev pub saturating_next : ℕ → ℕ
saturating_next n = if ltb (n + 1) u64_mod then n + 1 else n

-- The `match` on the state of the broker.
abbrev pub phase_fits : Runtime → Bool
phase_fits r =
    let b = r.broker in
    elim b.state [
      | building ↦ false
      | empty ↦ is_clear b
      | pending ↦
          b.request_present
          && b.request_kind == request_kind_commit_synthetic_value
          && b.approval_epoch == 0
          && b.expiry_epoch == 0
          && r.receiver in_state blocked_approval
      | approved ↦
          b.request_present
          && b.request_kind == request_kind_commit_synthetic_value
          && b.approval_epoch /= 0
          && b.expiry_epoch == saturating_next b.approval_epoch
          && r.receiver in_state blocked_approval
      | ApprovalBrokerState.closing ↦ is_clear b
      | ApprovalBrokerState.dead ↦ is_clear b
    ]

-- The request that the broker may hold.
abbrev pub request_fits : ApprovalRequestV1 → Bool
request_fits q =
    q.principal_id == principal_identity
    && q.workload_task_id == receiver_task_id
    && q.workload_generation == expected_workload_generation
    && q.sequence /= 0
    && q.action_id == action_id_commit_synthetic_value
    && q.effect_object_id == test_effect_object_id
    && q.effect_object_generation == fixed_object_generation
    && q.requested_rights == right_commit_effect
    && q.resulting_rights == 0

-- The checks of the manifest against the state of the workload.
unfoldable pub validate_launch : Runtime → Result RuntimeError (Unit {0})
unfolding snapshot
validate_launch r =
    let w = r.receiver in
    do
      reject_if
          (if w in_state staged
            then not (is_empty_manifest r.manifest)
              || w.capabilities.state is_not Table.building
              || (snapshot w.capabilities).live_slots /= 0
            else not (w in_state TaskState.dead)
              && w.capabilities.state is_not closing
              && not (is_registered r.manifest))
          manifest_invariant
      reject_if (w in_state TaskState.dead && not (is_empty_manifest r.manifest)) manifest_invariant

unfoldable pub validate_broker : Runtime → Result RuntimeError (Unit {0})
validate_broker r =
    let b = r.broker in
    do
      reject_if (not (phase_fits r)) broker_invariant
      reject_if
          (if not (b in_phase ApprovalBrokerState.dead)
            then b.object_generation /= fixed_object_generation
              || b.next_sequence == 0
              || b.decision_epoch == 0
            else not (is_dead_broker b))
          broker_invariant
      reject_if (b.request_present && not (request_fits b.request)) broker_invariant

unfoldable pub validate_effect : SyntheticEffect → Result RuntimeError (Unit {0})
validate_effect e =
    reject_if
      (if e.object_generation == 0
        then not (is_empty_effect e)
        else e.object_generation /= fixed_object_generation
          || e.supervisor_task_id /= sender_task_id
          || e.supervisor_generation /= expected_supervisor_generation
          || not e.occupied && e.value /= 0)
      effect_invariant

unfoldable pub validate_supervised : Runtime → Result RuntimeError (Unit {0})
unfolding validate_launch validate_broker validate_effect
validate_supervised r = do
  reject_if
      (not (is_empty_endpoint r.endpoint)
        || r.sender in_state blocked_receive
        || r.receiver in_state blocked_receive)
      endpoint_invariant
  reject_if
      (not (r.sender in_state TaskState.dead)
        && r.sender.generation /= expected_supervisor_generation)
      invalid_generation
  reject_if
      (not (r.receiver in_state TaskState.dead)
        && r.receiver.generation /= expected_workload_generation)
      invalid_generation
  validate_launch r
  validate_broker r
  validate_effect r.effect
  reject_if
      (all_dead r
        && (not (is_empty_manifest r.manifest)
            || not (is_dead_broker r.broker)
            || not (is_empty_effect r.effect)))
      broker_invariant
