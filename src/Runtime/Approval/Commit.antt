-- ===== src/Runtime/Approval/Commit.antt =====
-- `commit_effect`, on every branch.
use makopa_os.Common.{
  ℕ, ◌+◌, ◌≡◌, ◌⊎◌, inl, inr, refl, ap, ◌∙◌, none, true, false, ◌==◌, checked_add, ok, ◌>>=◌, arith,
  Result-cases, Option-cases, Bool-cases,
}
use makopa_os.Abi.{TrapStatus, approval_expired, object_type_test_effect, right_commit_effect}
use makopa_os.Runtime.State.{
  Runtime, TrapOutcome, resume, ApprovalBrokerState, approved, empty, building, pending, closing,
  dead, broker_code, report, clear_request, change_slot, slot, answered,
}
use makopa_os.Runtime.Shapes.{test_effect_object_id}
use makopa_os.Runtime.Dispatch.{resolve_object}
use makopa_os.Contexts.{set_result}
use makopa_os.Runtime.Frame.{IsFramed, report-IsFramed, answer-IsFramed, wake_workload-IsFramed}
use makopa_os.Runtime.Approval.{
  Trap, answer, approval_matches, commit_refusal, commit_effect, conclude,
}

approved_of : (s : ApprovalBrokerState) → broker_code s ≡ 3 → s ≡ approved
approved_of building e = absurd (omega (arith, e))
approved_of empty e = absurd (omega (arith, e))
approved_of pending e = absurd (omega (arith, e))
approved_of approved e = refl
approved_of closing e = absurd (omega (arith, e))
approved_of dead e = absurd (omega (arith, e))

-- A commit that took effect: what the approval was before, and what is left of it.
pub record IsCommitted (r r' : Runtime) (task handle sequence argument : ℕ) : Type 0 where
  pub held :
      resolve_object r task handle object_type_test_effect right_commit_effect test_effect_object_id
        r.effect.object_generation
      ≡ ok tt
  pub was_approved : r.broker.state ≡ approved
  pub same_sequence : r.broker.request.sequence ≡ sequence
  pub same_argument : r.broker.request.argument ≡ argument
  pub was_free : r.effect.occupied ≡ false
  pub in_time : r.broker.decision_epoch + 1 ≡ r.broker.expiry_epoch
  pub now_occupied : r'.effect.occupied ≡ true
  pub now_value : r'.effect.value ≡ argument
  pub used_up : r'.broker.state ≡ empty
  pub no_request : r'.broker.request_present ≡ false
  pub told : answered r' task TrapStatus.ok ≡ true

commit_refusal-none :
    (r : Runtime) (task handle sequence argument : ℕ)
    → commit_refusal r task handle sequence argument ≡ none
    → (resolve_object r task handle object_type_test_effect right_commit_effect
          test_effect_object_id r.effect.object_generation
        ≡ ok tt)
      × (approval_matches r.broker sequence argument ≡ true)
      × (r.effect.occupied ≡ false)
unfolding commit_refusal
commit_refusal-none r task handle sequence argument e =
    elim (Result-cases (
      resolve_object r task handle object_type_test_effect right_commit_effect test_effect_object_id
        r.effect.object_generation)) [
          | inr (x, bad) ↦ absurd (ground arith)
          | inl (u, found) ↦ (found, ground arith, ground arith)
        ]

report-answered :
    (r r' : Runtime) (task : ℕ) (status : TrapStatus) (value : ℕ)
    → report r task status value ≡ ok r'
    → answered r' task status ≡ true
unfolding report change_slot slot set_result
report-answered r r' task status value e = ground arith

pub answer-answered :
    (r r' : Runtime) (task : ℕ) (status : TrapStatus) (value : ℕ) (outcome : TrapOutcome)
    → answer r task status value ≡ ok (r', outcome)
    → answered r' task status ≡ true
unfolding answer
answer-answered r r' task status value outcome e =
    elim (Result-cases (report r task status value)) [
      | inr (x, bad) ↦ absurd (ground arith)
      | inl (r₁, reported) ↦ report-answered r r' task status value (ground arith)
    ]

pub conclude_lem :
    (r r' : Runtime) (status : TrapStatus) (value : ℕ)
    → conclude r status value ≡ ok r'
    → (r'.broker.state ≡ empty) × (r'.broker.request_present ≡ false) × (r'.effect ≡ r.effect)
unfolding conclude
conclude_lem r r' status value e =
    let f =
      wake_workload-IsFramed
        (record r { broker = record (clear_request r.broker) { state = empty } }) r' status value
        e in
    (ap (λ b. b.state) f.broker, ap (λ b. b.request_present) f.broker, f.effect)

late_commit :
    (r r' : Runtime) (task : ℕ) (outcome : TrapOutcome)
    → ◌≡◌ {A = Trap}
        (report r task approval_expired 0 >>= λ r″. ok (r″, resume task))
        (ok (r', outcome))
    → IsFramed r r'
late_commit r r' task outcome e = elim (Result-cases (report r task approval_expired 0)) [
  | inr (x, bad) ↦ absurd (ground arith)
  | inl (r₁, reported) ↦ report-IsFramed r r' task approval_expired 0 (ground arith)
]

-- The state in which a commit wakes the workload.
abbrev written : Runtime → ℕ → ℕ → Runtime
written r argument next_epoch = record r {
  effect = record r.effect { occupied = true; value = argument };
  broker = record r.broker { decision_epoch = next_epoch };
}

timely_commit :
    (r r' : Runtime) (task handle sequence argument next_epoch : ℕ) (outcome : TrapOutcome)
    → (resolve_object r task handle object_type_test_effect right_commit_effect
          test_effect_object_id r.effect.object_generation
        ≡ ok tt)
      × (approval_matches r.broker sequence argument ≡ true)
      × (r.effect.occupied ≡ false)
    → r.broker.decision_epoch + 1 ≡ r.broker.expiry_epoch
    → ◌≡◌ {A = Trap}
        (conclude (written r argument next_epoch) TrapStatus.ok argument >>= λ r″.
          answer r″ task TrapStatus.ok 0)
        (ok (r', outcome))
    → IsCommitted r r' task handle sequence argument
timely_commit r r' task handle sequence argument next_epoch outcome (found, matches, free) in_time
      e =
    elim (Result-cases (conclude (written r argument next_epoch) TrapStatus.ok argument)) [
      | inr (x, bad) ↦ absurd (ground arith)
      | inl (r₁, concluded) ↦
          let (phase, gone, effect) =
            conclude_lem (written r argument next_epoch) r₁ TrapStatus.ok argument concluded in
          let f = (answer-IsFramed r₁ r' task TrapStatus.ok 0 outcome (ground arith)).0 in
          record {
            held = found;
            was_approved = approved_of r.broker.state (ground arith);
            same_sequence = ground arith;
            same_argument = ground arith;
            was_free = free;
            in_time = in_time;
            now_occupied = ap (λ x. x.occupied) (f.effect ∙ effect);
            now_value = ap (λ x. x.value) (f.effect ∙ effect);
            used_up = ap (λ x. x.state) f.broker ∙ phase;
            no_request = ap (λ x. x.request_present) f.broker ∙ gone;
            told = answer-answered r₁ r' task TrapStatus.ok 0 outcome (ground arith);
          }
    ]

-- A commit either leaves the broker and the effect alone, or it was made with a handle that may commit,
-- under an approval of exactly this sequence number and argument that had not expired, on an effect
-- that was free: then the effect holds the argument, the approval is used up, and the task is told so.
pub commit_effect_lem :
    (r r' : Runtime) (task handle sequence argument : ℕ) (outcome : TrapOutcome)
    → commit_effect r task handle sequence argument ≡ ok (r', outcome)
    → IsFramed r r' ⊎ IsCommitted r r' task handle sequence argument
unfolding commit_effect
commit_effect_lem r r' task handle sequence argument outcome e =
    elim (Option-cases (commit_refusal r task handle sequence argument)) [
      | inr (status, refused) ↦ inl (answer-IsFramed r r' task status 0 outcome (ground arith)).0
      | inl accepted ↦ elim (Option-cases (checked_add r.broker.decision_epoch 1)) [
        | inl over ↦ absurd (ground arith)
        | inr (next_epoch, next) ↦ elim (Bool-cases (next_epoch == r.broker.expiry_epoch)) [
          | inr late ↦ inl (late_commit r r' task outcome (ground arith))
          | inl in_time ↦ inr (
              timely_commit r r' task handle sequence argument next_epoch outcome
                (commit_refusal-none r task handle sequence argument accepted) (ground arith)
                (ground arith))
        ]
      ]
    ]
