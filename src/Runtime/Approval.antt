-- ===== src/Runtime/Approval.antt =====
-- The approval traps of the supervised profile: `submit_approval`, `inspect_approval`,
-- `decide_approval` and `commit_effect`.
pub mod Commit
pub mod Decision
pub mod Submission
pub mod History
use makopa_os.Common.{
  ℕ, ◌+◌, ◌-◌, ◌||◌, ◌&&◌, not, Bool, true, false, Option, none, some, ◌==◌, ◌/=◌, leb,
  if◌then◌else◌, u64_mod, checked_add, Result, ok, err, ◌>>=◌, ◌>>◌, reject_if, ok_or,
}
use makopa_os.Abi.{
  TaskState, blocked_approval, RuntimeError, broker_invariant, TrapStatus, invalid_operation,
  wrong_object, broker_unavailable, broker_full, invalid_request, approval_mismatch,
  approval_denied, approval_expired, effect_unavailable, status_code, sender_task_id,
  receiver_task_id, approval_broker_object_id, fixed_object_generation, object_type_approval_broker,
  object_type_test_effect, right_submit_approval, right_decide_approval, right_commit_effect,
}
use makopa_os.Journal.Records.{ApprovalRequestV1}
use makopa_os.Manifest.{principal_identity, expected_workload_generation}
use makopa_os.Runtime.State.{
  TaskSlot, ApprovalBrokerState, building, empty, pending, approved, closing, dead, ApprovalBroker,
  Runtime, TrapOutcome, resume, switch, ◌in_phase◌, is_supervised, clear_request, report, put_state,
  change_slot,
}
use makopa_os.Runtime.Validate.{validate}
use makopa_os.Runtime.Shapes.{
  is_registered, request_kind_commit_synthetic_value, action_id_commit_synthetic_value,
  test_effect_object_id,
}
use makopa_os.Runtime.Dispatch.{
  dispatch_some, resolve_object, wake_workload, fail_broker_epoch_exhaustion,
}

abbrev pub decision_deny : ℕ
decision_deny = 0

abbrev pub decision_approve : ℕ
decision_approve = 1

abbrev pub decision_expire : ℕ
decision_expire = 2

abbrev pub Trap : Type 0
Trap = Result RuntimeError (Runtime × TrapOutcome)

-- `self.set_result(task, status, value)?; self.validate()?; Ok(Resume(task))`.
unfoldable pub answer : Runtime → ℕ → TrapStatus → ℕ → Trap
unfolding report
answer r task status value = do r' ← report r task status value; validate r'; ok (r', resume task)

abbrev pub is_closed : ApprovalBroker → Bool
is_closed b = b in_phase closing || b in_phase dead

-- The status with which `submit_approval` refuses a request.
unfoldable pub submit_refusal : Runtime → ℕ → ℕ → ℕ → Option TrapStatus
submit_refusal r task handle request_kind =
    let b = r.broker in
    if not (is_supervised r.profile)
    then some wrong_object
    else elim (resolve_object r task handle object_type_approval_broker right_submit_approval
        approval_broker_object_id b.object_generation) [
          | err status ↦ some status
          | ok u ↦
              if b in_phase building
                || is_closed b
                || b.sequence_exhausted
                || b.decision_epoch == u64_mod - 1
              then some broker_unavailable
              else if b in_phase pending || b in_phase approved
              then some broker_full
              else if request_kind /= request_kind_commit_synthetic_value
                  || task /= receiver_task_id
                  || not (is_registered r.manifest)
              then some invalid_request
              else none
        ]

-- The request that `submit_approval` records.
abbrev pub request_for : ℕ → ℕ → ApprovalRequestV1
request_for sequence argument = record {
  principal_id = principal_identity;
  workload_task_id = receiver_task_id;
  workload_generation = expected_workload_generation;
  sequence = sequence;
  action_id = action_id_commit_synthetic_value;
  effect_object_id = test_effect_object_id;
  effect_object_generation = fixed_object_generation;
  argument = argument;
  requested_rights = right_commit_effect;
  resulting_rights = 0;
}

-- The broker with a new request.
abbrev pub record_request : ApprovalBroker → ℕ → ℕ → ℕ → ApprovalBroker
record_request b request_kind argument next_epoch =
    let b' : ApprovalBroker = record b {
      request_kind = request_kind;
      request = request_for b.next_sequence argument;
      request_present = true;
      state = pending;
      decision_epoch = next_epoch;
    } in
    if b.next_sequence == u64_mod - 1
    then record b' { sequence_exhausted = true }
    else record b' { next_sequence = b.next_sequence + 1 }

unfoldable pub submit_approval : Runtime → ℕ → ℕ → ℕ → ℕ → Trap
unfolding answer submit_refusal put_state
submit_approval r task handle request_kind argument =
    elim (submit_refusal r task handle request_kind) [
      | some status ↦ answer r task status 0
      | none ↦ do
        next_epoch ← ok_or (checked_add r.broker.decision_epoch 1) broker_invariant
        r₁ ←
            put_state
              (record r { broker = record_request r.broker request_kind argument next_epoch }) task
              blocked_approval
        (r₂, next) ← dispatch_some r₁
        validate r₂
        ok (r₂, switch next)
    ]

unfoldable pub inspect_refusal : Runtime → ℕ → ℕ → ℕ → ℕ → Option TrapStatus
inspect_refusal r task handle reserved_kind reserved_argument =
    let b = r.broker in
    if reserved_kind /= 0 || reserved_argument /= 0
    then some invalid_operation
    else if not (is_supervised r.profile)
    then some wrong_object
    else elim (resolve_object r task handle object_type_approval_broker right_decide_approval
        approval_broker_object_id b.object_generation) [
          | err status ↦ some status
          | ok u ↦
              if not (b in_phase pending) || not b.request_present
              then (if is_closed b then some broker_unavailable else some invalid_request)
              else none
        ]

unfoldable pub inspect_approval : Runtime → ℕ → ℕ → ℕ → ℕ → Trap
unfolding answer inspect_refusal change_slot
inspect_approval r task handle reserved_kind reserved_argument =
    elim (inspect_refusal r task handle reserved_kind reserved_argument) [
      | some status ↦ answer r task status 0
      | none ↦ do
        r' ← change_slot r task (λ t. record t {
          context = record t.context {
            rax = status_code TrapStatus.ok;
            rdi = r.broker.request.sequence;
            rsi = r.broker.request_kind;
            rdx = r.broker.request.argument;
          };
        })
        validate r'
        ok (r', resume task)
    ]

unfoldable pub decide_refusal : Runtime → ℕ → ℕ → ℕ → ℕ → Option TrapStatus
decide_refusal r task handle sequence decision =
    let b = r.broker in
    if not (is_supervised r.profile)
    then some wrong_object
    else elim (resolve_object r task handle object_type_approval_broker right_decide_approval
        approval_broker_object_id b.object_generation) [
          | err status ↦ some status
          | ok u ↦
              if is_closed b
              then some broker_unavailable
              else if not b.request_present || b.request.sequence /= sequence
              then some approval_mismatch
              else if decision /= decision_deny
                    && decision /= decision_approve
                    && decision /= decision_expire
                  || decision == decision_approve && not (b in_phase pending)
                  || decision == decision_deny && not (b in_phase pending)
                  || decision == decision_expire && not (b in_phase pending || b in_phase approved)
              then some invalid_request
              else none
        ]

-- The epochs have run out: the broker closes.
unfoldable pub exhaust : Runtime → ℕ → Trap
unfolding answer fail_broker_epoch_exhaustion
exhaust r task = do r' ← fail_broker_epoch_exhaustion r; answer r' task broker_unavailable 0

-- The broker without its request, and the workload awake with the status.
unfoldable pub conclude : Runtime → TrapStatus → ℕ → Result RuntimeError Runtime
unfolding wake_workload
conclude r status value =
    wake_workload (record r { broker = record (clear_request r.broker) { state = empty } }) status
      value

-- The `match` on the decision, at the next epoch.
unfoldable pub apply_decision : Runtime → ℕ → ℕ → Result RuntimeError Runtime
unfolding conclude
apply_decision r decision next_epoch =
    let r' : Runtime = record r { broker = record r.broker { decision_epoch = next_epoch } } in
    if decision == decision_approve
    then ok (record r' {
      broker = record r'.broker {
        state = approved;
        approval_epoch = next_epoch;
        expiry_epoch = next_epoch + 1;
      };
    })
    else if decision == decision_deny
    then conclude r' approval_denied 0
    else if decision == decision_expire
    then conclude r' approval_expired 0
    else err broker_invariant

unfoldable pub decide_approval : Runtime → ℕ → ℕ → ℕ → ℕ → Trap
unfolding answer decide_refusal exhaust apply_decision
decide_approval r task handle sequence decision =
    elim (decide_refusal r task handle sequence decision) [
      | some status ↦ answer r task status 0
      | none ↦ elim (checked_add r.broker.decision_epoch 1) [
        | none ↦ exhaust r task
        | some next_epoch ↦
            if decision == decision_approve && next_epoch == u64_mod - 1
            then exhaust r task
            else do r' ← apply_decision r decision next_epoch; answer r' task TrapStatus.ok 0
      ]
    ]

-- The approval is for exactly this commit.
abbrev pub approval_matches : ApprovalBroker → ℕ → ℕ → Bool
approval_matches b sequence argument =
    let q = b.request in
    b in_phase approved
    && b.request_present
    && q.sequence == sequence
    && q.argument == argument
    && q.principal_id == principal_identity
    && q.workload_task_id == receiver_task_id
    && q.workload_generation == expected_workload_generation
    && q.action_id == action_id_commit_synthetic_value
    && q.effect_object_id == test_effect_object_id
    && q.effect_object_generation == fixed_object_generation
    && q.requested_rights == right_commit_effect
    && q.resulting_rights == 0

unfoldable pub commit_refusal : Runtime → ℕ → ℕ → ℕ → ℕ → Option TrapStatus
commit_refusal r task handle sequence argument =
    if not (is_supervised r.profile)
    then some wrong_object
    else elim (resolve_object r task handle object_type_test_effect right_commit_effect
        test_effect_object_id r.effect.object_generation) [
          | err status ↦ some status
          | ok u ↦
              if not (approval_matches r.broker sequence argument)
              then some approval_mismatch
              else if r.effect.occupied
              then some effect_unavailable
              else if leb r.broker.expiry_epoch r.broker.decision_epoch
              then some approval_expired
              else none
        ]

unfoldable pub commit_effect : Runtime → ℕ → ℕ → ℕ → ℕ → Trap
unfolding answer commit_refusal report conclude
commit_effect r task handle sequence argument =
    elim (commit_refusal r task handle sequence argument) [
      | some status ↦ answer r task status 0
      | none ↦ do
        next_epoch ← ok_or (checked_add r.broker.decision_epoch 1) broker_invariant
        (if next_epoch /= r.broker.expiry_epoch
            then (report r task approval_expired 0 >>= λ r'. ok (r', resume task))
            else (conclude
                  (record r {
                    effect = record r.effect { occupied = true; value = argument };
                    broker = record r.broker { decision_epoch = next_epoch };
                  })
                  TrapStatus.ok argument
                >>= λ r'. answer r' task TrapStatus.ok 0))
    ]
