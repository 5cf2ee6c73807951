-- ===== src/Runtime/Traps/Preserved.antt =====
-- The traps that leave the effect as it was.
use makopa_os.Common.{
  ℕ, ◌≡◌, inl, inr, ap, sym, ◌∙◌, ◌||◌, true, ◌==◌, ◌/=◌, ok, arith, Option-cases, Result-cases,
  Bool-cases,
}
use makopa_os.Abi.{
  TrapStatus, ready, exited, blocked_receive, receiver_task_id, invalid_operation, peer_exited,
}
use makopa_os.Capabilities.Table
use makopa_os.Capabilities.Table.{CapabilityTable}
use makopa_os.Runtime.State.{Runtime, TrapOutcome, report, change_slot, put_state, slot, ◌in_state◌}
use makopa_os.Runtime.Dispatch.{enqueue, dispatch_some}
use makopa_os.Runtime.Frame.{
  answer-IsFramed, report-IsFramed, put_state-IsFramed, enqueue-IsFramed, dispatch_some-IsFramed,
  change_slot-IsFramed,
}
use makopa_os.Runtime.Approval.{answer, submit_approval, decide_approval}
use makopa_os.Runtime.Approval.Decision.{decide_approval_lem}
use makopa_os.Runtime.Approval.Submission.{submit_approval_lem}
use makopa_os.Runtime.Launch.{refuse, start_workload}
use makopa_os.Runtime.Launch.Atomicity.{start_workload_lem, refuse_lem}
use makopa_os.Runtime.Messages.{drained, send, send_refusal, deliver, receive, receive_refusal}
use makopa_os.Runtime.Traps.{
  yield_task, exit_task, duplicate_handle, close_handle, status_of, value_of, status_of_close,
}

pub refused-effect :
    (r r' : Runtime) (task : ℕ) (status : TrapStatus) (outcome : TrapOutcome)
    → refuse r task status ≡ ok (r', outcome)
    → r'.effect ≡ r.effect
refused-effect r r' task status outcome e =
    (report-IsFramed r r' task status 0 (refuse_lem r r' task status outcome e)).effect

pub yield_task-effect :
    (r r' : Runtime) (task a b c : ℕ) (outcome : TrapOutcome)
    → yield_task r task a b c ≡ ok (r', outcome)
    → r'.effect ≡ r.effect
unfolding yield_task
yield_task-effect r r' task a b c outcome e = elim (Bool-cases (a /= 0 || b /= 0 || c /= 0)) [
  | inl bad ↦ refused-effect r r' task invalid_operation outcome (ground arith)
  | inr fine ↦ elim (Result-cases (report r task TrapStatus.ok 0)) [
    | inr (x, bad) ↦ absurd (ground arith)
    | inl (r₁, one) ↦ elim (Result-cases (put_state r₁ task ready)) [
      | inr (x, bad) ↦ absurd (ground arith)
      | inl (r₂, two) ↦ elim (Result-cases (enqueue r₂ task)) [
        | inr (x, bad) ↦ absurd (ground arith)
        | inl (r₃, three) ↦ elim (Result-cases (dispatch_some r₃)) [
          | inr (x, bad) ↦ absurd (ground arith)
          | inl ((r₄, next), four) ↦
              let same : r₄ ≡ r' = ground arith in
              ap (λ x. x.effect) (sym same)
              ∙ (dispatch_some-IsFramed r₃ r₄ next four).effect
              ∙ (enqueue-IsFramed r₂ r₃ task three).effect
              ∙ (put_state-IsFramed r₁ r₂ task ready two).effect
              ∙ (report-IsFramed r r₁ task TrapStatus.ok 0 one).effect
        ]
      ]
    ]
  ]
]

pub exit_task-effect :
    (r r' : Runtime) (task a b c : ℕ) (outcome : TrapOutcome)
    → exit_task r task a b c ≡ ok (r', outcome)
    → r'.effect ≡ r.effect
unfolding exit_task
exit_task-effect r r' task a b c outcome e = elim (Bool-cases (a /= 0 || b /= 0 || c /= 0)) [
  | inl bad ↦ refused-effect r r' task invalid_operation outcome (ground arith)
  | inr fine ↦ elim (Result-cases (put_state r task exited)) [
    | inr (x, bad) ↦ absurd (ground arith)
    | inl (r₁, one) ↦
        let same : r₁ ≡ r' = ground arith in
        ap (λ x. x.effect) (sym same) ∙ (put_state-IsFramed r r₁ task exited one).effect
  ]
]

pub deliver-effect :
    (r r' : Runtime) (message : ℕ) → deliver r message ≡ ok r' → r'.effect ≡ r.effect
unfolding deliver
deliver-effect r r' message e =
    let r₀ : Runtime = record r {
      endpoint = drained (record r.endpoint { occupied = true; payload = message });
    } in
    elim (Bool-cases (r.receiver in_state blocked_receive)) [
      | inr awake ↦ ground arith
      | inl waits ↦ elim (Result-cases (report r₀ receiver_task_id TrapStatus.ok message)) [
        | inr (x, bad) ↦ absurd (ground arith)
        | inl (r₁, one) ↦ elim (Result-cases (put_state r₁ receiver_task_id ready)) [
          | inr (x, bad) ↦ absurd (ground arith)
          | inl (r₂, two) ↦
              (enqueue-IsFramed r₂ r' receiver_task_id (ground arith)).effect
              ∙ (put_state-IsFramed r₁ r₂ receiver_task_id ready two).effect
              ∙ (report-IsFramed r₀ r₁ receiver_task_id TrapStatus.ok message one).effect
        ]
      ]
    ]

pub send-effect :
    (r r' : Runtime) (task a b c : ℕ) (outcome : TrapOutcome)
    → send r task a b c ≡ ok (r', outcome)
    → r'.effect ≡ r.effect
unfolding send
send-effect r r' task a b c outcome e = elim (Option-cases (send_refusal r task a c)) [
  | inr (status, refused) ↦ (answer-IsFramed r r' task status 0 outcome (ground arith)).0.effect
  | inl accepted ↦ elim (Result-cases (deliver r b)) [
    | inr (x, bad) ↦ absurd (ground arith)
    | inl (r₁, delivered) ↦
        (answer-IsFramed r₁ r' task TrapStatus.ok 0 outcome (ground arith)).0.effect
        ∙ deliver-effect r r₁ b delivered
  ]
]

pub receive-effect :
    (r r' : Runtime) (task a b c : ℕ) (outcome : TrapOutcome)
    → receive r task a b c ≡ ok (r', outcome)
    → r'.effect ≡ r.effect
unfolding receive
receive-effect r r' task a b c outcome e = elim (Option-cases (receive_refusal r task a b c)) [
  | inr (status, refused) ↦ refused-effect r r' task status outcome (ground arith)
  | inl accepted ↦ elim (Bool-cases r.endpoint.occupied) [
    | inl full ↦
        (answer-IsFramed (record r { endpoint = drained r.endpoint }) r' task TrapStatus.ok
          r.endpoint.payload outcome (ground arith)).0.effect
    | inr free ↦ elim (Bool-cases (r.endpoint.sender_generation == 0)) [
      | inl gone ↦ refused-effect r r' task peer_exited outcome (ground arith)
      | inr there ↦ elim (Result-cases (put_state r task blocked_receive)) [
        | inr (x, bad) ↦ absurd (ground arith)
        | inl (r₁, one) ↦ elim (Result-cases (dispatch_some r₁)) [
          | inr (x, bad) ↦ absurd (ground arith)
          | inl ((r₂, next), two) ↦
              let same : r₂ ≡ r' = ground arith in
              ap (λ x. x.effect) (sym same)
              ∙ (dispatch_some-IsFramed r₁ r₂ next two).effect
              ∙ (put_state-IsFramed r r₁ task blocked_receive one).effect
        ]
      ]
    ]
  ]
]

-- A new capability table for the task, and the answer.
pub table-effect :
    (r r₁ r' : Runtime) (task value : ℕ) (table : CapabilityTable) (status : TrapStatus)
    (outcome : TrapOutcome)
    → change_slot r task (λ s. record s { capabilities = table }) ≡ ok r₁
    → answer r₁ task status value ≡ ok (r', outcome)
    → r'.effect ≡ r.effect
table-effect r r₁ r' task value table status outcome one two =
    (answer-IsFramed r₁ r' task status value outcome two).0.effect
    ∙ (change_slot-IsFramed r r₁ task (λ s. record s { capabilities = table }) one).effect

pub duplicate_handle-effect :
    (r r' : Runtime) (task a b c : ℕ) (outcome : TrapOutcome)
    → duplicate_handle r task a b c ≡ ok (r', outcome)
    → r'.effect ≡ r.effect
unfolding duplicate_handle
duplicate_handle-effect r r' task a b c outcome e = elim (Bool-cases (c /= 0)) [
  | inl bad ↦ refused-effect r r' task invalid_operation outcome (ground arith)
  | inr fine ↦ elim (Result-cases (slot r task)) [
    | inr (x, bad) ↦ absurd (ground arith)
    | inl (t, found) ↦
        let made = Table.duplicate t.capabilities task t.generation a b in
        elim (Result-cases (change_slot r task (λ s. record s { capabilities = made.0 }))) [
          | inr (x, bad) ↦ absurd (ground arith)
          | inl (r₁, one) ↦
              table-effect r r₁ r' task (value_of made.1) made.0 (status_of made.1) outcome one
                (ground arith)
        ]
  ]
]

pub close_handle-effect :
    (r r' : Runtime) (task a b c : ℕ) (outcome : TrapOutcome)
    → close_handle r task a b c ≡ ok (r', outcome)
    → r'.effect ≡ r.effect
unfolding close_handle
close_handle-effect r r' task a b c outcome e = elim (Bool-cases (b /= 0 || c /= 0)) [
  | inl bad ↦ refused-effect r r' task invalid_operation outcome (ground arith)
  | inr fine ↦ elim (Result-cases (slot r task)) [
    | inr (x, bad) ↦ absurd (ground arith)
    | inl (t, found) ↦
        let made = Table.close t.capabilities task t.generation a in
        elim (Result-cases (change_slot r task (λ s. record s { capabilities = made.0 }))) [
          | inr (x, bad) ↦ absurd (ground arith)
          | inl (r₁, one) ↦
              table-effect r r₁ r' task 0 made.0 (status_of_close made.1) outcome one (ground arith)
        ]
  ]
]

pub start_workload-effect :
    (r r' : Runtime) (task a b c : ℕ) (outcome : TrapOutcome)
    → start_workload r task a b c ≡ ok (r', outcome)
    → r'.effect ≡ r.effect
start_workload-effect r r' task a b c outcome e =
    elim (start_workload_lem r r' task a b c outcome e) [
      | inl (status, failed, reported) ↦ (report-IsFramed r r' task status 0 reported).effect
      | inr launched ↦ launched.effect_kept
    ]

pub submit_approval-effect :
    (r r' : Runtime) (task a b c : ℕ) (outcome : TrapOutcome)
    → submit_approval r task a b c ≡ ok (r', outcome)
    → r'.effect ≡ r.effect
submit_approval-effect r r' task a b c outcome e =
    elim (submit_approval_lem r r' task a b c outcome e) [
      | inl framed ↦ framed.effect
      | inr submitted ↦ submitted.effect_kept
    ]

pub decide_approval-effect :
    (r r' : Runtime) (task a b c : ℕ) (outcome : TrapOutcome)
    → decide_approval r task a b c ≡ ok (r', outcome)
    → r'.effect ≡ r.effect
decide_approval-effect r r' task a b c outcome e =
    elim (decide_approval_lem r r' task a b c outcome e) [
      | inl framed ↦ framed.effect
      | inr (inl cleared) ↦ cleared.effect_kept
      | inr (inr approved) ↦ approved.effect_kept
    ]
