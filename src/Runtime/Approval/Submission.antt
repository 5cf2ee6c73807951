-- ===== src/Runtime/Approval/Submission.antt =====
-- `submit_approval` and `inspect_approval`: where a request comes from.
use makopa_os.Common.{
  ℕ, ◌-◌, ◌≡◌, ◌⊎◌, inl, inr, refl, ap, ◌∙◌, subst, none, ◌||◌, true, false, ◌==◌, u64_mod,
  checked_add, ok, arith, Result-cases, Option-cases, Bool-cases,
}
use makopa_os.Abi.{
  TrapStatus, status_code, object_type_approval_broker, right_submit_approval,
  approval_broker_object_id, blocked_approval, receiver_task_id,
}
use makopa_os.Runtime.State.{
  Runtime, TrapOutcome, approved, empty, building, pending, closing, dead, ApprovalBroker, TaskSlot,
  ◌in_phase◌, broker_code, put_state, change_slot,
}
use makopa_os.Runtime.Dispatch.{resolve_object, dispatch_some}
use makopa_os.Runtime.Frame.{
  IsFramed, answer-IsFramed, IsFramed-trans, put_state-IsFramed, change_slot-IsFramed,
  dispatch_some-IsFramed,
}
use makopa_os.Runtime.Approval.{
  submit_refusal, submit_approval, inspect_refusal, inspect_approval, record_request, is_closed,
}

-- A request was put in: the broker was empty and now holds it, with the next sequence number.
pub record IsSubmitted (r r' : Runtime) (task handle argument : ℕ) : Type 0 where
  pub held :
      resolve_object r task handle object_type_approval_broker right_submit_approval
        approval_broker_object_id r.broker.object_generation
      ≡ ok tt
  pub by_workload : task ≡ receiver_task_id
  pub was_empty : r.broker in_phase empty ≡ true
  pub now_pending : r'.broker in_phase pending ≡ true
  pub present : r'.broker.request_present ≡ true
  pub request_argument : r'.broker.request.argument ≡ argument
  pub request_sequence : r'.broker.request.sequence ≡ r.broker.next_sequence
  pub effect_kept : r'.effect ≡ r.effect

empty_of_rest :
    (b : ApprovalBroker)
    → (b in_phase building || is_closed b) ≡ false
    → (b in_phase pending || b in_phase approved) ≡ false
    → b in_phase empty ≡ true
empty_of_rest b h k =
    elim b.state
        as (λ s.
          (broker_code s == 0 || (broker_code s == 4 || broker_code s == 5)) ≡ false
          → (broker_code s == 2 || broker_code s == 3) ≡ false
          → (broker_code s == 1) ≡ true) [
            | building ↦ λ x y. absurd (ground arith)
            | empty ↦ λ x y. refl
            | pending ↦ λ x y. absurd (ground arith)
            | approved ↦ λ x y. absurd (ground arith)
            | closing ↦ λ x y. absurd (ground arith)
            | dead ↦ λ x y. absurd (ground arith)
          ]
      h k

submit_refusal-none :
    (r : Runtime) (task handle request_kind : ℕ)
    → submit_refusal r task handle request_kind ≡ none
    → (resolve_object r task handle object_type_approval_broker right_submit_approval
          approval_broker_object_id r.broker.object_generation
        ≡ ok tt)
      × (task ≡ receiver_task_id)
      × ((r.broker in_phase building || is_closed r.broker) ≡ false)
      × ((r.broker in_phase pending || r.broker in_phase approved) ≡ false)
unfolding submit_refusal
submit_refusal-none r task handle request_kind e =
    elim (Result-cases (
      resolve_object r task handle object_type_approval_broker right_submit_approval
        approval_broker_object_id r.broker.object_generation)) [
          | inr (x, bad) ↦ absurd (ground arith)
          | inl (u, found) ↦ (found, ground arith, ground arith, ground arith)
        ]

record_request_lem :
    (b : ApprovalBroker) (kind argument epoch : ℕ)
    → let b' = record_request b kind argument epoch in
      (b' in_phase pending ≡ true)
      × (b'.request_present ≡ true)
      × (b'.request.argument ≡ argument)
      × (b'.request.sequence ≡ b.next_sequence)
record_request_lem b kind argument epoch = elim (Bool-cases (b.next_sequence == u64_mod - 1)) [
  | inl last ↦ (ground arith, ground arith, ground arith, ground arith)
  | inr more ↦ (ground arith, ground arith, ground arith, ground arith)
]

-- A submission either leaves the broker and the effect alone, or puts a request for its argument into
-- a broker that was empty, for a workload whose handle may submit. It never touches the effect.
pub submit_approval_lem :
    (r r' : Runtime) (task handle request_kind argument : ℕ) (outcome : TrapOutcome)
    → submit_approval r task handle request_kind argument ≡ ok (r', outcome)
    → IsFramed r r' ⊎ IsSubmitted r r' task handle argument
unfolding submit_approval
submit_approval_lem r r' task handle request_kind argument outcome e =
    elim (Option-cases (submit_refusal r task handle request_kind)) [
      | inr (status, refused) ↦ inl (answer-IsFramed r r' task status 0 outcome (ground arith)).0
      | inl accepted ↦ elim (Option-cases (checked_add r.broker.decision_epoch 1)) [
        | inl over ↦ absurd (ground arith)
        | inr (next_epoch, next) ↦
            let r₀ : Runtime = record r {
              broker = record_request r.broker request_kind argument next_epoch;
            } in
            elim (Result-cases (put_state r₀ task blocked_approval)) [
              | inr (x, bad) ↦ absurd (ground arith)
              | inl (r₁, put) ↦ elim (Result-cases (dispatch_some r₁)) [
                | inr (x, bad) ↦ absurd (ground arith)
                | inl ((r₂, switched), dispatched) ↦
                    let same : r₂ ≡ r' = ground arith in
                    let f =
                      IsFramed-trans r₀ r₁ r₂ (put_state-IsFramed r₀ r₁ task blocked_approval put)
                        (dispatch_some-IsFramed r₁ r₂ switched dispatched) in
                    let g : IsFramed r₀ r' = subst (IsFramed r₀) same f in
                    let (found, by_workload, open_broker, no_other) =
                      submit_refusal-none r task handle request_kind accepted in
                    let (phase, present, wanted, numbered) =
                      record_request_lem r.broker request_kind argument next_epoch in
                    inr (record {
                      held = found;
                      by_workload = by_workload;
                      was_empty = empty_of_rest r.broker open_broker no_other;
                      now_pending = ap (λ b. b in_phase pending) g.broker ∙ phase;
                      present = ap (λ b. b.request_present) g.broker ∙ present;
                      request_argument = ap (λ b. b.request.argument) g.broker ∙ wanted;
                      request_sequence = ap (λ b. b.request.sequence) g.broker ∙ numbered;
                      effect_kept = g.effect;
                    })
              ]
            ]
      ]
    ]

-- An inspection changes no more than the registers of the task that asks.
pub inspect_approval-IsFramed :
    (r r' : Runtime) (task handle kind argument : ℕ) (outcome : TrapOutcome)
    → inspect_approval r task handle kind argument ≡ ok (r', outcome)
    → IsFramed r r'
unfolding inspect_approval
inspect_approval-IsFramed r r' task handle kind argument outcome e =
    let shown : TaskSlot → TaskSlot = λ t. record t {
      context = record t.context {
        rax = status_code TrapStatus.ok;
        rdi = r.broker.request.sequence;
        rsi = r.broker.request_kind;
        rdx = r.broker.request.argument;
      };
    } in
    elim (Option-cases (inspect_refusal r task handle kind argument)) [
      | inr (status, refused) ↦ (answer-IsFramed r r' task status 0 outcome (ground arith)).0
      | inl accepted ↦ elim (Result-cases (change_slot r task shown)) [
        | inr (x, bad) ↦ absurd (ground arith)
        | inl (r₁, changed) ↦ change_slot-IsFramed r r' task shown (changed ∙ ap ok (ground arith))
      ]
    ]
