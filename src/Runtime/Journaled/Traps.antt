-- ===== src/Runtime/Journaled/Traps.antt =====
-- `JournaledRuntime::handle_trap`: the journal reads, and the records of the other operations. A method
-- on `&mut self` returns what it leaves beside its result, also on an error.
use makopa_os.Common.{
  ℕ, ◌-◌, ◌||◌, ◌&&◌, not, Bool, true, false, Option, none, some, ◌==◌, ◌/=◌, ltb, if◌then◌else◌,
  Result, ok, err, ◌>>=◌, checked_add, u64_mod,
}
use makopa_os.Abi.{
  RuntimeError, wrong_state, journal_invariant, broker_invariant, TrapStatus, status_code,
  invalid_operation, approval_denied, approval_expired, effect_unavailable, broker_unavailable,
  journal_full, journal_unavailable, invalid_record, TrapOperation, sender_task_id,
  receiver_task_id, object_type_approval_broker, object_type_test_effect,
  object_type_effect_journal, right_submit_approval, right_decide_approval, right_commit_effect,
  right_read_effect_journal,
}
use makopa_os.Contexts.{TaskContextV1}
use makopa_os.Journal.Records.{EffectEventKind, requested, EffectRecordV1, event}
use makopa_os.Journal.{
  EffectJournalV1, EffectJournalError, begin_lifecycle, append_reserved, read_triplet,
  effect_journal_object_generation, ◌is◌,
}
use makopa_os.Journal
use makopa_os.Manifest.{expected_workload_generation}
use makopa_os.Runtime.State.{
  Runtime, pending, approved, empty, TrapOutcome, resume, ◌in_phase◌, slot, change_slot, report,
  clear_request, answered,
}
use makopa_os.Runtime.Shapes.{expected_supervisor_generation}
use makopa_os.Runtime.Dispatch.{resolve_object, wake_workload}
use makopa_os.Runtime.Approval.{decision_approve, decision_deny, decision_expire}
use makopa_os.Runtime.Traps.{parse, running_task, handle_trap}
use makopa_os.Runtime.Journaled.{JournaledRuntime, validate, effect_journal_object_id}

abbrev pub journal_status : EffectJournalError → TrapStatus
journal_status EffectJournalError.full = journal_full
journal_status EffectJournalError.unavailable = journal_unavailable
journal_status EffectJournalError.invariant = journal_unavailable
journal_status EffectJournalError.invalid_record = invalid_record

abbrev pub Words : Type 0
Words = ℕ × ℕ × ℕ

abbrev pub output : TrapStatus → Words → TaskContextV1 → TaskContextV1
output status (a, b, c) context = record context {
  rax = status_code status;
  rdi = a;
  rsi = b;
  rdx = c;
}

unfoldable pub set_journal_output :
    JournaledRuntime → ℕ → TrapStatus → Words → Result RuntimeError JournaledRuntime
set_journal_output jr task status values = do
  r ← change_slot jr.runtime task (λ t. record t { context = output status values t.context })
  ok (record jr { runtime = r })

abbrev pub refusal_of : Result TrapStatus (Unit {0}) → Option TrapStatus
refusal_of (ok u) = none
refusal_of (err status) = some status

abbrev pub reads_all : TrapOperation → Bool
reads_all TrapOperation.inspect_effect_journal = true
reads_all _ = false

-- The status with which a read of the journal is refused, if it is.
unfoldable pub read_refusal :
    JournaledRuntime → ℕ → TrapOperation → TaskContextV1 → Option TrapStatus
read_refusal jr task operation input =
    if reads_all operation && (input.rsi /= 0 || input.rdx /= 0)
    then some invalid_operation
    else elim (refusal_of (
        resolve_object jr.runtime task input.rdi object_type_effect_journal
          right_read_effect_journal effect_journal_object_id jr.journal.object_generation)) [
            | some status ↦ some status
            | none ↦
                if not (jr.journal.state is Journal.live || jr.journal.state is Journal.sealed)
                then some journal_unavailable
                else none
          ]

-- What a read that is not refused puts out.
abbrev pub read_output : JournaledRuntime → TrapOperation → TaskContextV1 → TrapStatus × Words
read_output jr operation input =
    if reads_all operation
    then (
      TrapStatus.ok,
      (
        (if jr.journal.committed_record_count == 0 then 0 else 1),
        jr.journal.next_record_sequence,
        jr.journal.committed_record_count,
      ),
    )
    else elim (read_triplet jr.journal input.rsi input.rdx) [
      | ok words ↦ (TrapStatus.ok, words)
      | err e ↦ (journal_status e, (0, 0, 0))
    ]

abbrev pub Outcome : Type 0
Outcome = JournaledRuntime × Result RuntimeError TrapOutcome

-- `handle_journal_read`, called with the two operations that read.
unfoldable pub handle_journal_read : JournaledRuntime → ℕ → TrapOperation → TaskContextV1 → Outcome
unfolding read_refusal set_journal_output validate
handle_journal_read jr task operation input = elim (read_refusal jr task operation input) [
  | some status ↦ elim (set_journal_output jr task status (0, 0, 0)) [
    | err e ↦ (jr, err e)
    | ok jr' ↦ (jr', ok (resume task))
  ]
  | none ↦
      let (status, words) = read_output jr operation input in
      elim (set_journal_output jr task status words) [
        | err e ↦ (jr, err e)
        | ok jr' ↦ elim (validate jr') [ err e ↦ (jr', err e) | ok u ↦ (jr', ok (resume task)) ]
      ]
]

-- The state before the trap, with a status for the task that asked.
unfoldable pub put_back : JournaledRuntime → ℕ → TrapStatus → Outcome
unfolding validate
put_back before task status = elim (report before.runtime task status 0) [
  | err e ↦ (before, err e)
  | ok r ↦
      let jr : JournaledRuntime = record before { runtime = r } in
      elim (validate jr) [ err e ↦ (jr, err e) | ok u ↦ (jr, ok (resume task)) ]
]

unfoldable pub rollback_submit : JournaledRuntime → ℕ → EffectJournalError → Outcome
unfolding put_back
rollback_submit before task EffectJournalError.full = put_back before task journal_full
rollback_submit before task EffectJournalError.unavailable =
    put_back before task journal_unavailable
rollback_submit before task EffectJournalError.invalid_record = (before, err journal_invariant)
rollback_submit before task EffectJournalError.invariant = (before, err journal_invariant)

-- Where the `match` on the operation goes: on to the last check, or out of the trap.
pub data Verdict : Type 0 where
  goes_on : JournaledRuntime → Verdict
  returns : Outcome → Verdict

unfoldable pub record_submission : JournaledRuntime → Runtime → ℕ → Verdict
unfolding put_back rollback_submit
record_submission before r task =
    if ltb (u64_mod - 1 - 3) before.runtime.broker.decision_epoch
    then returns (put_back before task broker_unavailable)
    else (let (journal, began) = begin_lifecycle before.journal (
          event requested TrapStatus.ok r.broker.decision_epoch receiver_task_id
            expected_workload_generation r.broker.request object_type_approval_broker
            right_submit_approval) in
        elim began [
          | err e ↦ returns (rollback_submit before task e)
          | ok u ↦ goes_on (record { runtime = r; journal = journal })
        ])

-- A record in the place of one that is reserved; on an error the state before is put back.
unfoldable pub record_reserved : JournaledRuntime → Runtime → EffectRecordV1 → Bool → Verdict
record_reserved before r rec release_unused =
    let (journal, appended) = append_reserved before.journal rec release_unused in
    elim appended [
      | err e ↦ returns (before, err journal_invariant)
      | ok u ↦ goes_on (record { runtime = r; journal = journal })
    ]

-- The event, the status and whether the rest of the reservation is given back.
abbrev pub decision_event : Runtime → Runtime → ℕ → Option (EffectEventKind × TrapStatus × Bool)
decision_event before r decision =
    if decision == decision_approve && r.broker in_phase approved
    then some (EffectEventKind.approved, TrapStatus.ok, false)
    else if decision == decision_deny && r.broker in_phase empty
    then some (EffectEventKind.denied, approval_denied, true)
    else if decision == decision_expire && r.broker in_phase empty
    then some (EffectEventKind.expired, approval_expired, before.broker in_phase pending)
    else none

-- The last branch leaves the runtime as the trap has left it.
unfoldable pub record_decision : JournaledRuntime → Runtime → ℕ → Verdict
unfolding record_reserved
record_decision before r decision = elim (decision_event before.runtime r decision) [
  | none ↦ returns (record before { runtime = r }, err journal_invariant)
  | some (kind, status, release_unused) ↦
      record_reserved before r
        (event kind status r.broker.decision_epoch sender_task_id expected_supervisor_generation
          before.runtime.broker.request object_type_approval_broker right_decide_approval)
        release_unused
]

abbrev pub commit_event : JournaledRuntime → EffectEventKind → TrapStatus → ℕ → EffectRecordV1
commit_event before kind status epoch =
    event kind status epoch sender_task_id expected_supervisor_generation
      before.runtime.broker.request object_type_test_effect right_commit_effect

-- A commit that found the effect taken: the approval ends with it.
abbrev pub without_approval : Runtime → ℕ → Runtime
without_approval r epoch = record r {
  broker = record (clear_request (record r.broker { decision_epoch = epoch })) { state = empty };
}

-- An early return here leaves what was written; what a failed `wake_workload` or `set_result` has
-- written itself is left out.
unfoldable pub record_failure : JournaledRuntime → Runtime → ℕ → Verdict
unfolding record_reserved
record_failure before r task = elim (checked_add r.broker.decision_epoch 1) [
  | none ↦ returns (record before { runtime = r }, err broker_invariant)
  | some epoch ↦
      let r₁ = without_approval r epoch in
      elim (wake_workload r₁ effect_unavailable 0) [
        | err e ↦ returns (record before { runtime = r₁ }, err e)
        | ok r₂ ↦ elim (report r₂ task effect_unavailable 0) [
          | err e ↦ returns (record before { runtime = r₂ }, err e)
          | ok r₃ ↦
              record_reserved before r₃
                (commit_event before EffectEventKind.failed effect_unavailable epoch) false
        ]
      ]
]

-- The `match` on the operation, with the state before the trap and the runtime after it.
unfoldable pub record_trap :
    JournaledRuntime → Runtime → ℕ → TaskContextV1 → Option TrapOperation → Verdict
unfolding record_submission record_decision record_failure record_reserved
record_trap before r task input (some TrapOperation.submit_approval) =
    if before.runtime.broker in_phase empty && r.broker in_phase pending && r.broker.request_present
    then record_submission before r task
    else goes_on (record before { runtime = r })
record_trap before r task input (some TrapOperation.decide_approval) =
    if before.runtime.broker.request_present && answered r task TrapStatus.ok
    then record_decision before r input.rdx
    else goes_on (record before { runtime = r })
record_trap before r task input (some TrapOperation.commit_effect) =
    if before.runtime.broker in_phase approved
      && r.broker in_phase empty
      && answered r task TrapStatus.ok
    then record_reserved before r
        (commit_event before EffectEventKind.completed TrapStatus.ok r.broker.decision_epoch) false
    else if before.runtime.broker in_phase approved
        && r.broker in_phase approved
        && answered r task effect_unavailable
    then record_failure before r task
    else goes_on (record before { runtime = r })
record_trap before r task input operation = goes_on (record before { runtime = r })

-- The end of a trap: the last check, or the early return.
unfoldable pub conclude_trap : JournaledRuntime → TrapOutcome → Verdict → Outcome
unfolding validate
conclude_trap before outcome (returns result) = result
conclude_trap before outcome (goes_on jr) = elim (validate jr) [
  | err e ↦ (before, err journal_invariant)
  | ok u ↦ (jr, ok outcome)
]

unfoldable pub handle_recorded_trap :
    JournaledRuntime → ℕ → TaskContextV1 → Option TrapOperation → Outcome
unfolding record_trap conclude_trap
handle_recorded_trap jr task input operation =
    let (r, result) = handle_trap jr.runtime task in
    elim result [
      | err e ↦ (jr, err e)
      | ok outcome ↦ conclude_trap jr outcome (record_trap jr r task input operation)
    ]

abbrev pub is_journal_read : Option TrapOperation → Bool
is_journal_read (some TrapOperation.inspect_effect_journal) = true
is_journal_read (some TrapOperation.read_effect_record) = true
is_journal_read _ = false

-- The operation of a read, which is `some`.
abbrev pub read_operation : Option TrapOperation → TrapOperation
read_operation none = TrapOperation.inspect_effect_journal
read_operation (some operation) = operation

unfoldable pub handle_journaled_trap : JournaledRuntime → ℕ → Outcome
unfolding handle_journal_read handle_recorded_trap
handle_journaled_trap jr task = elim (running_task jr.runtime) [
  | err e ↦ (jr, err e)
  | ok current ↦ if current /= task then (jr, err wrong_state) else elim (slot jr.runtime task) [
    | err e ↦ (jr, err e)
    | ok t ↦
        if is_journal_read (parse t.context.rax)
        then handle_journal_read jr task (read_operation (parse t.context.rax)) t.context
        else handle_recorded_trap jr task t.context (parse t.context.rax)
  ]
]
