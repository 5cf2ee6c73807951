-- ===== src/Runtime/Cooperative.antt =====
-- `Runtime::validate_cooperative`.
use makopa_os.Common.{◌||◌, ◌&&◌, not, ◌==◌, ◌/=◌, Result, ◌>>◌, reject_if}
use makopa_os.Abi.{
  staged, blocked_receive, blocked_approval, RuntimeError, capability_invariant, endpoint_invariant,
  sender_task_id, receiver_task_id, endpoint_generation,
}
use makopa_os.Capabilities.Table.{live, ◌is◌}
use makopa_os.Runtime.State.{Runtime, ◌in_state◌}
use makopa_os.Runtime.Shapes.{
  is_empty_manifest, is_dead_broker, is_empty_effect, is_empty_endpoint, differs, all_dead, is_gone,
}

unfoldable pub validate_cooperative : Runtime → Result RuntimeError (Unit {0})
validate_cooperative r =
    let s = r.sender in
    let w = r.receiver in
    let e = r.endpoint in
    do
      reject_if
          (s in_state staged
            || s in_state blocked_approval
            || w in_state staged
            || w in_state blocked_approval
            || not (is_empty_manifest r.manifest)
            || not (is_dead_broker r.broker)
            || not (is_empty_effect r.effect))
          capability_invariant
      reject_if
          (s.capabilities.state is live
            && (e.sender_task /= s.id || e.sender_generation /= s.generation))
          endpoint_invariant
      reject_if (is_gone s.capabilities && (e.sender_task /= 0 || e.sender_generation /= 0))
          endpoint_invariant
      reject_if
          (w.capabilities.state is live
            && (e.receiver_task /= w.id || e.receiver_generation /= w.generation))
          endpoint_invariant
      reject_if (is_gone w.capabilities && (e.receiver_task /= 0 || e.receiver_generation /= 0))
          endpoint_invariant
      reject_if (w in_state blocked_receive && (e.occupied || e.sender_generation == 0))
          endpoint_invariant
      reject_if (e.receiver_generation == 0 && e.occupied) endpoint_invariant
      reject_if
          (not e.occupied && e.payload /= 0
            || e.object_generation /= 0 && e.object_generation /= endpoint_generation
            || not (all_dead r) && e.object_generation /= endpoint_generation
            || differs (e.sender_task == 0) (e.sender_generation == 0)
            || differs (e.receiver_task == 0) (e.receiver_generation == 0)
            || e.sender_task /= 0 && e.sender_task /= sender_task_id
            || e.receiver_task /= 0 && e.receiver_task /= receiver_task_id)
          endpoint_invariant
      reject_if (all_dead r && not (is_empty_endpoint e)) endpoint_invariant
