-- ===== src/Runtime/Teardown/Wakeup.antt =====
-- `begin_teardown` of the supervisor while the workload waits for an approval.
use makopa_os.Common.{ℕ, ◌≡◌, inl, inr, ap, sym, ◌∙◌, true, Result, ok, arith, Result-cases}
use makopa_os.Abi.{
  ready, blocked_approval, TrapStatus, RuntimeError, sender_task_id, receiver_task_id,
}
use makopa_os.Capabilities.Table.{CapabilityTable, mark_closing, close_all}
use makopa_os.Runtime.Queue.{push}
use makopa_os.Runtime.State.{
  Runtime, is_supervised, ◌in_state◌, slot, change_slot, report, put_state,
}
use makopa_os.Runtime.Dispatch.{enqueue, wake_workload}
use makopa_os.Runtime.Teardown.{
  on_table, terminal, drop_supervisor, teardown_supervised, begin_teardown,
}

woken_ready :
    (r r' : Runtime) (status : TrapStatus) (value : ℕ)
    → wake_workload r status value ≡ ok r'
    → r'.receiver.state ≡ ready
unfolding wake_workload report put_state change_slot enqueue
woken_ready r r' status value e = elim (Result-cases (push r.queue receiver_task_id).1) [
  | inr (x, bad) ↦ absurd (ground arith)
  | inl (u, pushed) ↦ ground arith
]

dropped_ready :
    (r r' : Runtime)
    → r.receiver in_state blocked_approval ≡ true
    → drop_supervisor r ≡ ok r'
    → r'.receiver.state ≡ ready
unfolding drop_supervisor
dropped_ready r r' waits e = elim (Result-cases (wake_workload r (terminal r.broker) 0)) [
  | inr (x, bad) ↦ absurd (ground arith)
  | inl (r₁, woken) ↦ ground (arith, woken_ready r r₁ (terminal r.broker) 0 woken)
]

sender_table :
    (r r' : Runtime) (operate : CapabilityTable → CapabilityTable × Result RuntimeError (Unit {0}))
    → on_table r sender_task_id operate ≡ ok r'
    → r'.receiver ≡ r.receiver
unfolding on_table slot change_slot
sender_table r r' operate e = elim (Result-cases (operate r.sender.capabilities).1) [
  | inr (x, bad) ↦ absurd (ground arith)
  | inl (u, good) ↦ ground arith
]

-- When the teardown of the supervisor begins, a workload that waits for an approval is ready again.
pub teardown_wakes_workload :
    (r r' : Runtime)
    → is_supervised r.profile ≡ true
    → r.receiver in_state blocked_approval ≡ true
    → begin_teardown r sender_task_id ≡ ok r'
    → r'.receiver.state ≡ ready
unfolding begin_teardown teardown_supervised slot
teardown_wakes_workload r r' profile waits e =
    elim (Result-cases (on_table r sender_task_id mark_closing)) [
      | inr (x, bad) ↦ absurd (ground arith)
      | inl (r₁, marked) ↦ elim (Result-cases (drop_supervisor r₁)) [
        | inr (x, bad) ↦ absurd (ground arith)
        | inl (r₂, dropped) ↦ elim (Result-cases (on_table r₂ sender_task_id close_all)) [
          | inr (x, bad) ↦ absurd (ground arith)
          | inl (r₃, closes) ↦
              let same : r₃ ≡ r' = ground arith in
              let kept = sender_table r r₁ mark_closing marked in
              ap (λ x. x.receiver.state) (sym same)
              ∙ ap (λ t. t.state) (sender_table r₂ r₃ close_all closes)
              ∙ dropped_ready r₁ r₂ (ap (λ t. t in_state blocked_approval) kept ∙ waits) dropped
        ]
      ]
    ]
