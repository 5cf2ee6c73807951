-- ===== src/Runtime/Approval/Decision.antt =====
-- `decide_approval`: how a request is approved, denied or expires.
use makopa_os.Common.{
  ℕ, ◌+◌, ◌-◌, ◌≡◌, ◌⊎◌, inl, inr, refl, ap, ◌∙◌, none, ◌&&◌, true, false, ◌==◌, u64_mod,
  checked_add, ok, ◌>>=◌, arith, Result-cases, Option-cases, Bool-cases,
}
use makopa_os.Abi.{
  TrapStatus, broker_unavailable, approval_denied, approval_expired, object_type_approval_broker,
  right_decide_approval, approval_broker_object_id, blocked_approval,
}
use makopa_os.Runtime.State.{
  Runtime, TrapOutcome, approved, pending, ◌in_phase◌, ◌in_state◌, broker_code,
}
use makopa_os.Runtime.Dispatch.{resolve_object, wake_workload, fail_broker_epoch_exhaustion}
use makopa_os.Runtime.Frame.{IsFramed, answer-IsFramed, wake_workload-IsFramed}
use makopa_os.Runtime.Approval.{
  Trap, answer, decide_refusal, decide_approval, conclude, exhaust, apply_decision, decision_deny,
  decision_approve, decision_expire,
}
use makopa_os.Runtime.Approval.Commit.{conclude_lem}

-- The broker holds no request and no approval.
pub record IsCleared (r r' : Runtime) : Type 0 where
  pub no_request : r'.broker.request_present ≡ false
  pub not_approved : r'.broker in_phase approved ≡ false
  pub effect_kept : r'.effect ≡ r.effect

-- The request that was pending is approved as it stood.
pub record IsApproved (r r' : Runtime) (task handle sequence decision : ℕ) : Type 0 where
  pub held :
      resolve_object r task handle object_type_approval_broker right_decide_approval
        approval_broker_object_id r.broker.object_generation
      ≡ ok tt
  pub decided : decision ≡ decision_approve
  pub was_pending : r.broker in_phase pending ≡ true
  pub present : r.broker.request_present ≡ true
  pub same_sequence : r.broker.request.sequence ≡ sequence
  pub request_kept : r'.broker.request ≡ r.broker.request
  pub now_approved : r'.broker.state ≡ approved
  pub effect_kept : r'.effect ≡ r.effect

decide_refusal-none :
    (r : Runtime) (task handle sequence decision : ℕ)
    → decide_refusal r task handle sequence decision ≡ none
    → (resolve_object r task handle object_type_approval_broker right_decide_approval
          approval_broker_object_id r.broker.object_generation
        ≡ ok tt)
      × (r.broker.request_present ≡ true)
      × (r.broker.request.sequence ≡ sequence)
      × (decision ≡ decision_approve → r.broker in_phase pending ≡ true)
unfolding decide_refusal
decide_refusal-none r task handle sequence decision e =
    elim (Result-cases (
      resolve_object r task handle object_type_approval_broker right_decide_approval
        approval_broker_object_id r.broker.object_generation)) [
          | inr (x, bad) ↦ absurd (ground arith)
          | inl (u, found) ↦ (found, ground arith, ground arith, λ d. ground arith)
        ]

-- The broker closes whether the workload waits or not.
closed_broker :
    (r r' : Runtime)
    → fail_broker_epoch_exhaustion r ≡ ok r'
    → (r'.broker.request_present ≡ false)
      × (r'.broker in_phase approved ≡ false)
      × (r'.effect ≡ r.effect)
unfolding fail_broker_epoch_exhaustion
closed_broker r r' e = elim (Bool-cases (r.receiver in_state blocked_approval)) [
  | inr awake ↦ (ground arith, ground arith, ground arith)
  | inl waits ↦ elim (Result-cases (wake_workload r broker_unavailable 0)) [
    | inr (x, bad) ↦ absurd (ground arith)
    | inl (r₁, woken) ↦
        let f = wake_workload-IsFramed r r₁ broker_unavailable 0 woken in
        (ground arith, ground arith, ground arith ∙ f.effect)
  ]
]

exhaust-IsCleared :
    (r r' : Runtime) (task : ℕ) (outcome : TrapOutcome)
    → exhaust r task ≡ ok (r', outcome)
    → IsCleared r r'
unfolding exhaust
exhaust-IsCleared r r' task outcome e = elim (Result-cases (fail_broker_epoch_exhaustion r)) [
  | inr (x, bad) ↦ absurd (ground arith)
  | inl (r₁, closes) ↦
      let (gone, phase, effect) = closed_broker r r₁ closes in
      let f = (answer-IsFramed r₁ r' task broker_unavailable 0 outcome (ground arith)).0 in
      record {
        no_request = ap (λ b. b.request_present) f.broker ∙ gone;
        not_approved = ap (λ b. b in_phase approved) f.broker ∙ phase;
        effect_kept = f.effect ∙ effect;
      }
]

conclude-IsCleared :
    (r₀ r r' : Runtime) (task value : ℕ) (status : TrapStatus) (outcome : TrapOutcome)
    → r.effect ≡ r₀.effect
    → ◌≡◌ {A = Trap}
        (conclude r status value >>= λ r″. answer r″ task TrapStatus.ok 0)
        (ok (r', outcome))
    → IsCleared r₀ r'
conclude-IsCleared r₀ r r' task value status outcome same e =
    elim (Result-cases (conclude r status value)) [
      | inr (x, bad) ↦ absurd (ground arith)
      | inl (r₁, concluded) ↦
          let (phase, gone, effect) = conclude_lem r r₁ status value concluded in
          let f = (answer-IsFramed r₁ r' task TrapStatus.ok 0 outcome (ground arith)).0 in
          record {
            no_request = ap (λ b. b.request_present) f.broker ∙ gone;
            not_approved =
                ap (λ b. b in_phase approved) f.broker ∙ ap (λ s. broker_code s == 3) phase;
            effect_kept = f.effect ∙ effect ∙ same;
          }
    ]

apply_decision_lem :
    (r r' : Runtime) (task handle sequence decision next_epoch : ℕ) (outcome : TrapOutcome)
    → decide_refusal r task handle sequence decision ≡ none
    → ◌≡◌ {A = Trap}
        (apply_decision r decision next_epoch >>= λ r″. answer r″ task TrapStatus.ok 0)
        (ok (r', outcome))
    → IsCleared r r' ⊎ IsApproved r r' task handle sequence decision
unfolding apply_decision
apply_decision_lem r r' task handle sequence decision next_epoch outcome accepted e =
    elim (Bool-cases (decision == decision_approve)) [
      | inl approves ↦
          let (found, present, same, was_pending) =
            decide_refusal-none r task handle sequence decision accepted in
          let approves' : decision ≡ decision_approve = ground arith in
          let r₁ : Runtime = record r {
            broker = record r.broker {
              decision_epoch = next_epoch;
              state = approved;
              approval_epoch = next_epoch;
              expiry_epoch = next_epoch + 1;
            };
          } in
          let f = (answer-IsFramed r₁ r' task TrapStatus.ok 0 outcome (ground arith)).0 in
          inr (record {
            held = found;
            decided = approves';
            was_pending = was_pending approves';
            present = present;
            same_sequence = same;
            request_kept = ap (λ b. b.request) f.broker;
            now_approved = ap (λ b. b.state) f.broker;
            effect_kept = f.effect;
          })
      | inr other ↦
          let r₁ : Runtime = record r {
            broker = record r.broker { decision_epoch = next_epoch };
          } in
          elim (Bool-cases (decision == decision_deny)) [
            | inl denies ↦
                inl (conclude-IsCleared r r₁ r' task 0 approval_denied outcome refl (ground arith))
            | inr goes_on ↦ elim (Bool-cases (decision == decision_expire)) [
              | inl expires ↦
                  inl
                    (conclude-IsCleared r r₁ r' task 0 approval_expired outcome refl (ground arith))
              | inr nothing ↦ absurd (ground arith)
            ]
          ]
    ]

-- A decision either leaves the broker and the effect alone, or clears the request, or approves the
-- request that was pending, unchanged and by its sequence number, for a handle that may decide. It
-- never touches the effect.
pub decide_approval_lem :
    (r r' : Runtime) (task handle sequence decision : ℕ) (outcome : TrapOutcome)
    → decide_approval r task handle sequence decision ≡ ok (r', outcome)
    → IsFramed r r' ⊎ IsCleared r r' ⊎ IsApproved r r' task handle sequence decision
unfolding decide_approval
decide_approval_lem r r' task handle sequence decision outcome e =
    elim (Option-cases (decide_refusal r task handle sequence decision)) [
      | inr (status, refused) ↦ inl (answer-IsFramed r r' task status 0 outcome (ground arith)).0
      | inl accepted ↦ elim (Option-cases (checked_add r.broker.decision_epoch 1)) [
        | inl over ↦ inr (inl (exhaust-IsCleared r r' task outcome (ground arith)))
        | inr (next_epoch, next) ↦
            elim (Bool-cases (decision == decision_approve && next_epoch == u64_mod - 1)) [
              | inl last ↦ inr (inl (exhaust-IsCleared r r' task outcome (ground arith)))
              | inr room ↦ inr (
                  apply_decision_lem r r' task handle sequence decision next_epoch outcome accepted
                    (ground arith))
            ]
      ]
    ]
