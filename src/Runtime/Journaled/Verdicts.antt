-- ===== src/Runtime/Journaled/Verdicts.antt =====
-- How the `match` on the operation of a trap ends, for every operation.
use makopa_os.Common.{
  ℕ, ◌≡◌, refl, sym, ◌∙◌, subst, Bool, true, false, Option, some, err, inl, inr, Result-cases,
  Option-cases, Bool-cases, ltb, ◌-◌, u64_mod, checked_add, ◌&&◌, if◌then◌else◌,
}
use makopa_os.Abi.{
  RuntimeError, journal_invariant, broker_invariant, TrapStatus, broker_unavailable,
  effect_unavailable, TrapOperation, receiver_task_id, sender_task_id, object_type_approval_broker,
  right_submit_approval, right_decide_approval,
}
use makopa_os.Contexts.{TaskContextV1}
use makopa_os.Journal.{EffectJournalV1, EffectJournalError, begin_lifecycle, append_reserved}
use makopa_os.Journal.Records.{EffectRecordV1, EffectEventKind, requested, event}
use makopa_os.Runtime.State.{Runtime, pending, approved, empty, ◌in_phase◌, answered, report}
use makopa_os.Manifest.{expected_workload_generation}
use makopa_os.Runtime.Shapes.{expected_supervisor_generation}
use makopa_os.Runtime.Dispatch.{wake_workload}
use makopa_os.Runtime.Frame.{wake_workload-IsFramed, report-IsFramed}
use makopa_os.Runtime.Journaled.{JournaledRuntime}
use makopa_os.Runtime.Journaled.Traps.{
  put_back, rollback_submit, Verdict, goes_on, returns, record_submission, record_reserved,
  record_decision, record_failure, record_trap, decision_event, commit_event, without_approval,
}

-- How the `match` on the operation ends: with the effect that the trap has left, with an error, or
-- with the state before the trap put back.
pub data IsSettled (before : JournaledRuntime) (r : Runtime) : Verdict → Type 0 where
  passes :
      (r' : Runtime) (journal : EffectJournalV1)
      → r'.effect ≡ r.effect
      → IsSettled before r (goes_on (record { runtime = r'; journal = journal }))
  fails : (jr : JournaledRuntime) (e : RuntimeError) → IsSettled before r (returns (jr, err e))
  backs :
      (task : ℕ) (status : TrapStatus) → IsSettled before r (returns (put_back before task status))

rollback_submit-IsSettled :
    (before : JournaledRuntime) (r : Runtime) (task : ℕ) (e : EffectJournalError)
    → IsSettled before r (returns (rollback_submit before task e))
unfolding rollback_submit
rollback_submit-IsSettled before r task EffectJournalError.full = backs task _
rollback_submit-IsSettled before r task EffectJournalError.unavailable = backs task _
rollback_submit-IsSettled before r task EffectJournalError.invalid_record = fails before _
rollback_submit-IsSettled before r task EffectJournalError.invariant = fails before _

by_verdict :
    (before : JournaledRuntime) (r : Runtime) (v w : Verdict)
    → v ≡ w
    → IsSettled before r w
    → IsSettled before r v
by_verdict before r v w e i = subst (λ (x : Verdict). IsSettled before r x) (sym e) i

-- The effect of a state that later steps have not touched.
same_effect :
    (before : JournaledRuntime) (r r₃ : Runtime) (v : Verdict)
    → r₃.effect ≡ r.effect
    → IsSettled before r₃ v
    → IsSettled before r v
same_effect before r r₃ v p (passes r' journal e) = passes r' journal (e ∙ p)
same_effect before r r₃ v p (fails jr e) = fails jr e
same_effect before r r₃ v p (backs task status) = backs task status

record_submission-IsSettled :
    (before : JournaledRuntime) (r : Runtime) (task : ℕ)
    → IsSettled before r (record_submission before r task)
unfolding record_submission
record_submission-IsSettled before r task =
    elim (Bool-cases (ltb (u64_mod - 1 - 3) before.runtime.broker.decision_epoch)) [
      | inl late ↦
          by_verdict before r (record_submission before r task)
            (returns (put_back before task broker_unavailable)) (rw (late, record_submission) refl)
            (backs task broker_unavailable)
      | inr early ↦
          let x = begin_lifecycle before.journal (
            event requested TrapStatus.ok r.broker.decision_epoch receiver_task_id
              expected_workload_generation r.broker.request object_type_approval_broker
              right_submit_approval) in
          elim (Result-cases x.1) [
            | inr (e, bad) ↦
                by_verdict before r (record_submission before r task)
                  (returns (rollback_submit before task e))
                  (rw (early, bad, record_submission) refl)
                  (rollback_submit-IsSettled before r task e)
            | inl (u, good) ↦
                by_verdict before r (record_submission before r task)
                  (goes_on (record { runtime = r; journal = x.0 }))
                  (rw (early, good, record_submission) refl) (passes r x.0 refl)
          ]
    ]

record_reserved-IsSettled :
    (before : JournaledRuntime) (r : Runtime) (rec : EffectRecordV1) (release_unused : Bool)
    → IsSettled before r (record_reserved before r rec release_unused)
unfolding record_reserved
record_reserved-IsSettled before r rec release_unused =
    let x = append_reserved before.journal rec release_unused in
    elim (Result-cases x.1) [
      | inr (e, bad) ↦
          by_verdict before r (record_reserved before r rec release_unused)
            (returns (before, err journal_invariant)) (rw (bad, record_reserved) refl)
            (fails before journal_invariant)
      | inl (u, good) ↦
          by_verdict before r (record_reserved before r rec release_unused)
            (goes_on (record { runtime = r; journal = x.0 })) (rw (good, record_reserved) refl)
            (passes r x.0 refl)
    ]

record_decision-IsSettled :
    (before : JournaledRuntime) (r : Runtime) (decision : ℕ)
    → IsSettled before r (record_decision before r decision)
unfolding record_decision
record_decision-IsSettled before r decision =
    elim (Option-cases (decision_event before.runtime r decision)) [
      | inl wrong ↦
          by_verdict before r (record_decision before r decision)
            (returns (record before { runtime = r }, err journal_invariant))
            (rw (wrong, record_decision) refl) (fails _ _)
      | inr ((kind, status, release_unused), known) ↦
          let rec =
            event kind status r.broker.decision_epoch sender_task_id expected_supervisor_generation
              before.runtime.broker.request object_type_approval_broker right_decide_approval in
          by_verdict before r (record_decision before r decision)
            (record_reserved before r rec release_unused) (rw (known, record_decision) refl)
            (record_reserved-IsSettled before r rec release_unused)
    ]

record_failure-IsSettled :
    (before : JournaledRuntime) (r : Runtime) (task : ℕ)
    → IsSettled before r (record_failure before r task)
unfolding record_failure
record_failure-IsSettled before r task =
    elim (Option-cases (checked_add r.broker.decision_epoch 1)) [
      | inl over ↦
          by_verdict before r (record_failure before r task)
            (returns (record before { runtime = r }, err broker_invariant))
            (rw (over, record_failure) refl) (fails _ _)
      | inr (epoch, next) ↦
          elim (Result-cases (wake_workload (without_approval r epoch) effect_unavailable 0)) [
            | inr (e, bad) ↦
                by_verdict before r (record_failure before r task)
                  (returns (record before { runtime = without_approval r epoch }, err e))
                  (rw (next, bad, record_failure) refl) (fails _ _)
            | inl (r₂, woken) ↦ elim (Result-cases (report r₂ task effect_unavailable 0)) [
              | inr (e, bad) ↦
                  by_verdict before r (record_failure before r task)
                    (returns (record before { runtime = r₂ }, err e))
                    (rw (next, woken, bad, record_failure) refl) (fails _ _)
              | inl (r₃, told) ↦
                  let rec = commit_event before EffectEventKind.failed effect_unavailable epoch in
                  by_verdict before r (record_failure before r task)
                    (record_reserved before r₃ rec false)
                    (rw (next, woken, told, record_failure) refl)
                    (same_effect before r r₃ (record_reserved before r₃ rec false)
                      ((report-IsFramed r₂ r₃ task effect_unavailable 0 told).effect
                        ∙ (wake_workload-IsFramed (without_approval r epoch) r₂ effect_unavailable 0
                            woken).effect)
                      (record_reserved-IsSettled before r₃ rec false))
            ]
          ]
    ]

either-IsSettled :
    (before : JournaledRuntime) (r : Runtime) (b : Bool) (v w : Verdict)
    → IsSettled before r v
    → IsSettled before r w
    → IsSettled before r (if b then v else w)
either-IsSettled before r true v w i j = i
either-IsSettled before r false v w i j = j

pub record_trap-IsSettled :
    (before : JournaledRuntime) (r : Runtime) (task : ℕ) (input : TaskContextV1)
    (operation : Option TrapOperation)
    → IsSettled before r (record_trap before r task input operation)
unfolding record_trap
record_trap-IsSettled before r task input (some TrapOperation.submit_approval) =
    either-IsSettled before r
      (before.runtime.broker in_phase empty
        && r.broker in_phase pending
        && r.broker.request_present)
      (record_submission before r task) (goes_on (record before { runtime = r }))
      (record_submission-IsSettled before r task) (passes r before.journal refl)
record_trap-IsSettled before r task input (some TrapOperation.decide_approval) =
    either-IsSettled before r
      (before.runtime.broker.request_present && answered r task TrapStatus.ok)
      (record_decision before r input.rdx) (goes_on (record before { runtime = r }))
      (record_decision-IsSettled before r input.rdx) (passes r before.journal refl)
record_trap-IsSettled before r task input (some TrapOperation.commit_effect) =
    let completed =
      commit_event before EffectEventKind.completed TrapStatus.ok r.broker.decision_epoch in
    let otherwise =
      if before.runtime.broker in_phase approved
        && r.broker in_phase approved
        && answered r task effect_unavailable
      then record_failure before r task
      else goes_on (record before { runtime = r }) in
    either-IsSettled before r
      (before.runtime.broker in_phase approved
        && r.broker in_phase empty
        && answered r task TrapStatus.ok)
      (record_reserved before r completed false) otherwise
      (record_reserved-IsSettled before r completed false)
      (either-IsSettled before r
        (before.runtime.broker in_phase approved
          && r.broker in_phase approved
          && answered r task effect_unavailable)
        (record_failure before r task) (goes_on (record before { runtime = r }))
        (record_failure-IsSettled before r task) (passes r before.journal refl))
record_trap-IsSettled before r task input operation = passes r before.journal refl
