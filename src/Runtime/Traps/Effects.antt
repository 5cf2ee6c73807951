-- ===== src/Runtime/Traps/Effects.antt =====
-- The traps and the effect that they may write.
use makopa_os.Common.{
  ℕ, ◌≡◌, ◌⊎◌, inl, inr, refl, ap, ◌∙◌, some, ok, arith, Option-cases, Result-cases,
}
use makopa_os.Abi.{TrapOperation, invalid_operation}
use makopa_os.Contexts.{TaskContextV1}
use makopa_os.Runtime.State.{Runtime, TaskSlot, TrapOutcome, slot}
use makopa_os.Runtime.Frame.{answer-IsFramed}
use makopa_os.Runtime.Approval.Commit.{IsCommitted, commit_effect_lem}
use makopa_os.Runtime.Approval.Submission.{inspect_approval-IsFramed}
use makopa_os.Runtime.Traps.{running_task, perform, parse, handle_trap_inner, handle_trap}
use makopa_os.Runtime.Traps.Preserved.{
  refused-effect, yield_task-effect, exit_task-effect, send-effect, receive-effect,
  duplicate_handle-effect, close_handle-effect, start_workload-effect, submit_approval-effect,
  decide_approval-effect,
}

-- The effect stays, or the operation was a commit.
perform-effect :
    (r r' : Runtime) (task : ℕ) (input : TaskContextV1) (operation : TrapOperation)
    (outcome : TrapOutcome)
    → perform r task input operation ≡ ok (r', outcome)
    → (r'.effect ≡ r.effect)
      ⊎ ((operation ≡ TrapOperation.commit_effect)
          × IsCommitted r r' task input.rdi input.rsi input.rdx)
unfolding perform
perform-effect r r' task input TrapOperation.yield outcome e =
    inl (yield_task-effect r r' task input.rdi input.rsi input.rdx outcome e)
perform-effect r r' task input TrapOperation.send outcome e =
    inl (send-effect r r' task input.rdi input.rsi input.rdx outcome e)
perform-effect r r' task input TrapOperation.receive outcome e =
    inl (receive-effect r r' task input.rdi input.rsi input.rdx outcome e)
perform-effect r r' task input TrapOperation.exit outcome e =
    inl (exit_task-effect r r' task input.rdi input.rsi input.rdx outcome e)
perform-effect r r' task input TrapOperation.duplicate outcome e =
    inl (duplicate_handle-effect r r' task input.rdi input.rsi input.rdx outcome e)
perform-effect r r' task input TrapOperation.close outcome e =
    inl (close_handle-effect r r' task input.rdi input.rsi input.rdx outcome e)
perform-effect r r' task input TrapOperation.start_workload outcome e =
    inl (start_workload-effect r r' task input.rdi input.rsi input.rdx outcome e)
perform-effect r r' task input TrapOperation.submit_approval outcome e =
    inl (submit_approval-effect r r' task input.rdi input.rsi input.rdx outcome e)
perform-effect r r' task input TrapOperation.inspect_approval outcome e =
    inl (inspect_approval-IsFramed r r' task input.rdi input.rsi input.rdx outcome e).effect
perform-effect r r' task input TrapOperation.decide_approval outcome e =
    inl (decide_approval-effect r r' task input.rdi input.rsi input.rdx outcome e)
perform-effect r r' task input TrapOperation.commit_effect outcome e =
    elim (commit_effect_lem r r' task input.rdi input.rsi input.rdx outcome e) [
      | inl framed ↦ inl framed.effect
      | inr committed ↦ inr (refl, committed)
    ]
perform-effect r r' task input TrapOperation.inspect_effect_journal outcome e =
    inl (answer-IsFramed r r' task invalid_operation 0 outcome e).0.effect
perform-effect r r' task input TrapOperation.read_effect_record outcome e =
    inl (answer-IsFramed r r' task invalid_operation 0 outcome e).0.effect

-- The effect was written by a commit that the running task asked for.
pub record IsWrittenByCommit (r r' : Runtime) (task : ℕ) : Type 0 where
  pub runs : running_task r ≡ ok task
  pub asker : TaskSlot
  pub is_asker : slot r task ≡ ok asker
  pub asks : parse asker.context.rax ≡ some TrapOperation.commit_effect
  pub committed : IsCommitted r r' task asker.context.rdi asker.context.rsi asker.context.rdx

inner-effect :
    (r r' : Runtime) (task : ℕ) (outcome : TrapOutcome)
    → handle_trap_inner r task ≡ ok (r', outcome)
    → (r'.effect ≡ r.effect) ⊎ IsWrittenByCommit r r' task
unfolding handle_trap_inner
inner-effect r r' task outcome e = elim (Result-cases (running_task r)) [
  | inr (x, bad) ↦ absurd (ground arith)
  | inl (current, runs) ↦ elim (Result-cases (slot r task)) [
    | inr (x, bad) ↦ absurd (ground arith)
    | inl (t, found) ↦ elim (Option-cases (parse t.context.rax)) [
      | inl unknown ↦ inl (refused-effect r r' task invalid_operation outcome (ground arith))
      | inr (operation, known) ↦
          let current_is : current ≡ task = ground arith in
          elim (perform-effect r r' task t.context operation outcome (ground arith)) [
            | inl kept ↦ inl kept
            | inr (commits, committed) ↦ inr (record {
              runs = runs ∙ ap ok current_is;
              asker = t;
              is_asker = found;
              asks = known ∙ ap some commits;
              committed = committed;
            })
          ]
    ]
  ]
]

-- Whatever a task asks for, and whether or not it succeeds, a trap leaves the effect as it was, unless
-- the task that runs asked for a commit, with a handle that may commit, under an approval of exactly
-- the value and the sequence number in its registers.
pub handle_trap_lem :
    (r : Runtime) (task : ℕ)
    → ((handle_trap r task).0.effect ≡ r.effect) ⊎ IsWrittenByCommit r (handle_trap r task).0 task
unfolding handle_trap
handle_trap_lem r task = elim (Result-cases (handle_trap_inner r task)) [
  | inr (x, bad) ↦ inl (ground arith)
  | inl ((r', outcome), good) ↦ rw (good, handle_trap) (inner-effect r r' task outcome good)
]
