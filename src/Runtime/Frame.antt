-- ===== src/Runtime/Frame.antt =====
-- What the steps of a trap leave alone: a change of a task, of the queue or of the running task does
-- not touch the broker, the effect, the manifest, the endpoint or the profile.
use makopa_os.Common.{ℕ, ◌≡◌, ap, ◌∙◌, ok, arith, Result-cases, Option-cases, inl, inr}
use makopa_os.Abi.{TaskState, TrapStatus, receiver_task_id, running, ready}
use makopa_os.Contexts.{set_result}
use makopa_os.Runtime.Queue.{RunQueue, push, pop}
use makopa_os.Runtime.State.{Runtime, TaskSlot, TrapOutcome, change_slot, report, put_state, slot}
use makopa_os.Runtime.Dispatch.{dispatch_next, dispatch_some, enqueue, wake_workload}
use makopa_os.Runtime.Approval.{answer}

pub record IsFramed (r r' : Runtime) : Type 0 where
  pub profile : r'.profile ≡ r.profile
  pub endpoint : r'.endpoint ≡ r.endpoint
  pub manifest : r'.manifest ≡ r.manifest
  pub broker : r'.broker ≡ r.broker
  pub effect : r'.effect ≡ r.effect

pub IsFramed-trans : (r r' r″ : Runtime) → IsFramed r r' → IsFramed r' r″ → IsFramed r r″
IsFramed-trans r r' r″ f g = record {
  profile = g.profile ∙ f.profile;
  endpoint = g.endpoint ∙ f.endpoint;
  manifest = g.manifest ∙ f.manifest;
  broker = g.broker ∙ f.broker;
  effect = g.effect ∙ f.effect;
}

pub change_slot-IsFramed :
    (r r' : Runtime) (task : ℕ) (change : TaskSlot → TaskSlot)
    → change_slot r task change ≡ ok r'
    → IsFramed r r'
unfolding change_slot
change_slot-IsFramed r r' task change e = record {
  profile = ground arith;
  endpoint = ground arith;
  manifest = ground arith;
  broker = ground arith;
  effect = ground arith;
}

pub report-IsFramed :
    (r r' : Runtime) (task : ℕ) (status : TrapStatus) (value : ℕ)
    → report r task status value ≡ ok r'
    → IsFramed r r'
unfolding report
report-IsFramed r r' task status value e =
    change_slot-IsFramed r r' task (λ t. record t { context = set_result t.context status value }) e

pub put_state-IsFramed :
    (r r' : Runtime) (task : ℕ) (state : TaskState) → put_state r task state ≡ ok r' → IsFramed r r'
unfolding put_state
put_state-IsFramed r r' task state e =
    change_slot-IsFramed r r' task (λ t. record t { state = state }) e

pub enqueue-IsFramed : (r r' : Runtime) (task : ℕ) → enqueue r task ≡ ok r' → IsFramed r r'
unfolding enqueue
enqueue-IsFramed r r' task e = elim (Result-cases (push r.queue task).1) [
  | inr (x, bad) ↦ absurd (ground arith)
  | inl (u, pushed) ↦ record {
    profile = ground arith;
    endpoint = ground arith;
    manifest = ground arith;
    broker = ground arith;
    effect = ground arith;
  }
]

pub answer-IsFramed :
    (r r' : Runtime) (task : ℕ) (status : TrapStatus) (value : ℕ) (outcome : TrapOutcome)
    → answer r task status value ≡ ok (r', outcome)
    → IsFramed r r' × (report r task status value ≡ ok r')
unfolding answer
answer-IsFramed r r' task status value outcome e =
    elim (Result-cases (report r task status value)) [
      | inr (x, bad) ↦ absurd (ground arith)
      | inl (r₁, reported) ↦
          let same : report r task status value ≡ ok r' = ground arith in
          (report-IsFramed r r' task status value same, same)
    ]

queue-IsFramed :
    (r r' : Runtime) (queue : RunQueue) → IsFramed (record r { queue = queue }) r' → IsFramed r r'
queue-IsFramed r r' queue f = record {
  profile = f.profile;
  endpoint = f.endpoint;
  manifest = f.manifest;
  broker = f.broker;
  effect = f.effect;
}

pub dispatch_some-IsFramed :
    (r r' : Runtime) (next : ℕ) → dispatch_some r ≡ ok (r', next) → IsFramed r r'
unfolding dispatch_some dispatch_next
dispatch_some-IsFramed r r' next e = elim (Option-cases (pop r.queue).1) [
  | inl none_waits ↦ absurd (ground arith)
  | inr (task, waits) ↦ elim (Result-cases (slot r task)) [
    | inr (x, bad) ↦ absurd (ground arith)
    | inl (t, found) ↦
        let r₀ : Runtime = record r { queue = (pop r.queue).0 } in
        elim (Result-cases (put_state r₀ task running)) [
          | inr (x, bad) ↦ absurd (ground arith)
          | inl (r₂, put) ↦
              let same : r₂ ≡ r' = ground arith in
              queue-IsFramed r r' (pop r.queue).0
                (put_state-IsFramed r₀ r' task running (put ∙ ap ok same))
        ]
  ]
]

pub wake_workload-IsFramed :
    (r r' : Runtime) (status : TrapStatus) (value : ℕ)
    → wake_workload r status value ≡ ok r'
    → IsFramed r r'
unfolding wake_workload
wake_workload-IsFramed r r' status value e =
    elim (Result-cases (report r receiver_task_id status value)) [
      | inr (x, bad) ↦ absurd (ground arith)
      | inl (r₁, reported) ↦ elim (Result-cases (put_state r₁ receiver_task_id ready)) [
        | inr (x, bad) ↦ absurd (ground arith)
        | inl (r₂, put) ↦
            let f = report-IsFramed r r₁ receiver_task_id status value reported in
            let g = put_state-IsFramed r₁ r₂ receiver_task_id ready put in
            let h = enqueue-IsFramed r₂ r' receiver_task_id (ground arith) in
            IsFramed-trans r r₁ r' f (IsFramed-trans r₁ r₂ r' g h)
      ]
    ]
