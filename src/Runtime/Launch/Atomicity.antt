-- ===== src/Runtime/Launch/Atomicity.antt =====
-- `start_workload`: what a launch checks, what it does, and what a refused one leaves.
use makopa_os.Common.{
  ℕ, ◌≡◌, ◌≢◌, ◌⊎◌, inl, inr, ap, ◌∙◌, true, none, ok, arith, Option-cases, Result-cases,
}
use makopa_os.Abi.{
  TrapStatus, ready, staged, invalid_manifest, receiver_task_id, fixed_object_generation,
  object_type_task_control, right_start,
}
use makopa_os.Manifest.{manifest_identity}
use makopa_os.Runtime.State.{Runtime, TrapOutcome, report, change_slot, answered, ◌in_state◌}
use makopa_os.Runtime.Dispatch.{enqueue, resolve_object}
use makopa_os.Runtime.Frame.{answer-IsFramed, enqueue-IsFramed}
use makopa_os.Runtime.Refusals.{start_refusal_refused}
use makopa_os.Runtime.Approval.Commit.{answer-answered}
use makopa_os.Runtime.Queue.{push}
use makopa_os.Capabilities.Table.{CapabilityTable}
use makopa_os.Runtime.Launch.{
  refuse, start_refusal, launched_table, published_manifest, start_workload, task_control_object_id,
}

-- What a launch has checked and done.
pub record IsLaunched (r r' : Runtime) (task handle manifest_id : ℕ) : Type 0 where
  pub held :
      resolve_object r task handle object_type_task_control right_start task_control_object_id
        fixed_object_generation
      ≡ ok tt
  pub named : manifest_id ≡ manifest_identity
  pub was_staged : r.receiver in_state staged ≡ true
  pub table : CapabilityTable
  pub installs : launched_table r.receiver.capabilities ≡ ok table
  pub receives : r'.receiver.capabilities ≡ table
  pub is_ready : r'.receiver.state ≡ ready
  pub queued : push r.queue receiver_task_id ≡ (r'.queue, ok tt)
  pub told : answered r' task TrapStatus.ok ≡ true
  pub published : r'.manifest ≡ published_manifest
  pub broker_kept : r'.broker ≡ r.broker
  pub effect_kept : r'.effect ≡ r.effect

start_refusal-none :
    (r : Runtime) (task handle manifest_id reserved : ℕ)
    → start_refusal r task handle manifest_id reserved ≡ none
    → (resolve_object r task handle object_type_task_control right_start task_control_object_id
          fixed_object_generation
        ≡ ok tt)
      × (manifest_id ≡ manifest_identity)
      × (r.receiver in_state staged ≡ true)
unfolding start_refusal
start_refusal-none r task handle manifest_id reserved e =
    elim (Result-cases (
      resolve_object r task handle object_type_task_control right_start task_control_object_id
        fixed_object_generation)) [
          | inr (x, bad) ↦ absurd (ground arith)
          | inl (u, found) ↦ (found, ground arith, ground arith)
        ]

pub refuse_lem :
    (r r' : Runtime) (task : ℕ) (status : TrapStatus) (outcome : TrapOutcome)
    → refuse r task status ≡ ok (r', outcome)
    → report r task status 0 ≡ ok r'
unfolding refuse
refuse_lem r r' task status outcome e = elim (Result-cases (report r task status 0)) [
  | inr (x, bad) ↦ absurd (ground arith)
  | inl (r₁, reported) ↦ ground arith
]

enqueue_lem :
    (r r' : Runtime) (task : ℕ)
    → enqueue r task ≡ ok r'
    → (push r.queue task ≡ (r'.queue, ok tt)) × (r'.receiver ≡ r.receiver)
unfolding enqueue
enqueue_lem r r' task e = elim (Result-cases (push r.queue task).1) [
  | inr (x, bad) ↦ absurd (grind arith)
  | inl (u, good) ↦ (grind arith, grind arith)
]

-- A result in the registers of a task touches neither the queue nor the receiver's state and table.
told_lem :
    (r r' : Runtime) (task : ℕ) (status : TrapStatus) (value : ℕ)
    → report r task status value ≡ ok r'
    → (r'.queue ≡ r.queue)
      × (r'.receiver.state ≡ r.receiver.state)
      × (r'.receiver.capabilities ≡ r.receiver.capabilities)
unfolding report change_slot
told_lem r r' task status value e = (ground arith, ground arith, ground arith)

pub start_workload_lem :
    (r r' : Runtime) (task handle manifest_id reserved : ℕ) (outcome : TrapOutcome)
    → start_workload r task handle manifest_id reserved ≡ ok (r', outcome)
    → ((status : TrapStatus) × (status ≢ TrapStatus.ok) × (report r task status 0 ≡ ok r'))
      ⊎ IsLaunched r r' task handle manifest_id
unfolding start_workload
start_workload_lem r r' task handle manifest_id reserved outcome e =
    elim (Option-cases (start_refusal r task handle manifest_id reserved)) [
      | inr (status, refused) ↦ inl (
        status,
        start_refusal_refused r task handle manifest_id reserved status refused,
        refuse_lem r r' task status outcome (ground arith),
      )
      | inl accepted ↦ elim (Result-cases (launched_table r.receiver.capabilities)) [
        | inr (x, bad) ↦ inl (
          invalid_manifest,
          (λ same. absurd (ground arith)),
          refuse_lem r r' task invalid_manifest outcome (ground arith),
        )
        | inl (table, made) ↦
            let r₀ : Runtime = record r {
              manifest = published_manifest;
              receiver = record r.receiver { state = ready; capabilities = table };
            } in
            elim (Result-cases (enqueue r₀ receiver_task_id)) [
              | inr (x, bad) ↦ absurd (ground arith)
              | inl (r₁, queued) ↦
                  let f = enqueue-IsFramed r₀ r₁ receiver_task_id queued in
                  let (pushed, kept) = enqueue_lem r₀ r₁ receiver_task_id queued in
                  let (g, reported) =
                    answer-IsFramed r₁ r' task TrapStatus.ok 0 outcome (ground arith) in
                  let (queue, state, capabilities) = told_lem r₁ r' task TrapStatus.ok 0 reported in
                  let (found, named, was_staged) =
                    start_refusal-none r task handle manifest_id reserved accepted in
                  inr (record {
                    held = found;
                    named = named;
                    was_staged = was_staged;
                    table = table;
                    installs = made;
                    receives = capabilities ∙ ap (λ t. t.capabilities) kept;
                    is_ready = state ∙ ap (λ t. t.state) kept;
                    queued = rw queue pushed;
                    told = answer-answered r₁ r' task TrapStatus.ok 0 outcome (ground arith);
                    published = g.manifest ∙ f.manifest;
                    broker_kept = g.broker ∙ f.broker;
                    effect_kept = g.effect ∙ f.effect;
                  })
            ]
      ]
    ]
