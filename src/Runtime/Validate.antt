-- ===== src/Runtime/Validate.antt =====
-- `Runtime::validate`: the run queue, each task, and the checks of the profile.
use makopa_os.Common.{
  ℕ, zero, suc, ◌||◌, ◌&&◌, not, Bool, true, List, [], ◌∷◌, ◌==◌, ◌/=◌, ltb, if◌then◌else◌, any,
  Result, ◌>>◌, reject_if,
}
use makopa_os.Abi.{
  TaskState, staged, ready, running, blocked_receive, blocked_approval, exited, RuntimeError,
  invalid_queue_member, duplicate_queue_member, multiple_running_tasks, missing_queue_member,
  invalid_generation, capability_invariant, sender_task_id, receiver_task_id,
}
use makopa_os.Capabilities.Table.{CapabilityTable, live, closing, ◌is◌, ◌is_not◌, snapshot}
use makopa_os.Capabilities.Table
use makopa_os.Runtime.Queue.{RunQueue, first, contains, task_count}
use makopa_os.Runtime.State.{TaskSlot, cooperative, supervised, Runtime, ◌in_state◌}
use makopa_os.Runtime.Shapes.{differs}
use makopa_os.Runtime.Cooperative.{validate_cooperative}
use makopa_os.Runtime.Supervised.{validate_supervised}

-- The entries beyond the length are 0.
abbrev pub unused_clear : ℕ → List ℕ → Bool
unused_clear n [] = true
unused_clear zero (t ∷ ts) = t == 0 && unused_clear zero ts
unused_clear (suc n) (t ∷ ts) = unused_clear n ts

-- The loop over the members of the queue.
abbrev pub members_fit : List ℕ → Bool
members_fit [] = true
members_fit (t ∷ ts) =
    (t == sender_task_id || t == receiver_task_id) && not (any (λ u. u == t) ts) && members_fit ts

-- The last check of a task: the state of its capability table.
abbrev pub table_fits : TaskSlot → Bool
table_fits t = elim t.state [
  | staged ↦ t.capabilities.state is Table.building
  | ready ↦ t.capabilities.state is live
  | running ↦ t.capabilities.state is live
  | blocked_receive ↦ t.capabilities.state is live
  | blocked_approval ↦ t.capabilities.state is live
  | exited ↦ t.capabilities.state is live || t.capabilities.state is closing
  | TaskState.dead ↦ t.capabilities.state is Table.dead
]

-- The round of the loop of `validate` for one task.
unfoldable pub validate_slot : RunQueue → TaskSlot → Result RuntimeError (Unit {0})
validate_slot queue t =
    let queued = contains queue t.id in
    do
      Table.validate t.capabilities
      reject_if (differs (t in_state ready) queued)
          (if queued then invalid_queue_member else missing_queue_member)
      reject_if
          (if t in_state TaskState.dead
            then t.generation /= 0
              || t.context.task_id /= 0
              || t.context.generation /= 0
              || t.context.root /= 0
              || t.capabilities.state is_not Table.dead
            else t.generation == 0
              || t.context.task_id /= t.id
              || t.context.generation /= t.generation
              || t.context.root == 0
              || t.capabilities.task_id /= t.id
              || t.capabilities.task_generation /= t.generation)
          invalid_generation
      reject_if (not (table_fits t)) capability_invariant

unfoldable pub validate : Runtime → Result RuntimeError (Unit {0})
unfolding validate_slot validate_cooperative validate_supervised
validate r =
    let q = r.queue in
    do
      reject_if (ltb task_count q.len || not (unused_clear q.len q.entries)) invalid_queue_member
      reject_if (not (members_fit (first q.len q.entries))) duplicate_queue_member
      reject_if (r.sender in_state running && r.receiver in_state running) multiple_running_tasks
      validate_slot q r.sender
      validate_slot q r.receiver
      (elim r.profile [ cooperative ↦ validate_cooperative r | supervised ↦ validate_supervised r ])
