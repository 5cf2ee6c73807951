-- ===== src/Runtime/Messages/Delivery.antt =====
-- Where a message goes: to a receiver that waits, or into the slot.
use makopa_os.Common.{
  ℕ, ◌≡◌, ◌≢◌, ◌⊎◌, inl, inr, ap, ◌∙◌, true, false, none, ok, arith, Option-cases, Result-cases,
  Bool-cases,
}
use makopa_os.Abi.{TrapStatus, ready, blocked_receive, sender_task_id, receiver_task_id, right_send}
use makopa_os.Contexts.{set_result}
use makopa_os.Runtime.Queue.{push}
use makopa_os.Runtime.State.{
  Runtime, TrapOutcome, report, change_slot, put_state, answered, ◌in_state◌,
}
use makopa_os.Runtime.Dispatch.{enqueue, resolve_endpoint}
use makopa_os.Runtime.Frame.{answer-IsFramed}
use makopa_os.Runtime.Refusals.{send_refusal_refused}
use makopa_os.Runtime.Approval.Commit.{answer-answered}
use makopa_os.Runtime.Messages.{drained, send_refusal, deliver, send}

-- The receiver waited and now has the message.
abbrev Delivered : Runtime → Runtime → ℕ → Type 0
Delivered r r' message =
    (r.receiver in_state blocked_receive ≡ true)
    × (r'.receiver.state ≡ ready)
    × (r'.receiver.context.rdx ≡ message)
    × (r'.endpoint ≡ drained r.endpoint)

-- The message stands in the slot.
abbrev Stored : Runtime → Runtime → ℕ → Type 0
Stored r r' message =
    (r.receiver in_state blocked_receive ≡ false)
    × (r'.receiver ≡ r.receiver)
    × (r'.endpoint ≡ record r.endpoint { occupied = true; payload = message })

-- The sender is told a status other than ok, and nothing else changes.
abbrev pub IsRefused : Runtime → Runtime → ℕ → Type 0
IsRefused r r' task =
    (status : TrapStatus) × (status ≢ TrapStatus.ok) × (report r task status 0 ≡ ok r')

pub record IsSent (r r' : Runtime) (handle message : ℕ) : Type 0 where
  pub held : resolve_endpoint r sender_task_id handle right_send ≡ ok tt
  pub was_free : r.endpoint.occupied ≡ false
  pub told : answered r' sender_task_id TrapStatus.ok ≡ true
  pub place : Delivered r r' message ⊎ Stored r r' message

send_refusal-none :
    (r : Runtime) (task handle reserved : ℕ)
    → send_refusal r task handle reserved ≡ none
    → (resolve_endpoint r task handle right_send ≡ ok tt) × (r.endpoint.occupied ≡ false)
unfolding send_refusal
send_refusal-none r task handle reserved e =
    elim (Result-cases (resolve_endpoint r task handle right_send)) [
      | inr (x, bad) ↦ absurd (ground arith)
      | inl (u, found) ↦ (found, ground arith)
    ]

deliver_lem :
    (r r' : Runtime) (message : ℕ)
    → deliver r message ≡ ok r'
    → Delivered r r' message ⊎ Stored r r' message
unfolding deliver report change_slot put_state enqueue set_result
deliver_lem r r' message e = elim (Bool-cases (r.receiver in_state blocked_receive)) [
  | inr awake ↦ inr (awake, ground arith, ground arith)
  | inl waits ↦ elim (Result-cases (push r.queue receiver_task_id).1) [
    | inr (x, bad) ↦ absurd (ground arith)
    | inl (u, pushed) ↦ inl (waits, ground arith, ground arith, ground arith)
  ]
]

-- The sender's own result does not touch the receiver.
sender_answer :
    (r r' : Runtime) (status : TrapStatus) (value : ℕ)
    → report r sender_task_id status value ≡ ok r'
    → (r'.receiver ≡ r.receiver) × (r'.endpoint ≡ r.endpoint)
unfolding report change_slot
sender_answer r r' status value e = (ground arith, ground arith)

-- A send by the sender that does not fail is refused or sent. A refused one changes nothing but the
-- result registers of the sender, which say a status other than ok. One that is sent was made with a
-- handle that may send while the slot was free, and the sender is told ok: then the message is with
-- the receiver, if it waited, and else in the slot.
pub send_lem :
    (r r' : Runtime) (handle message reserved : ℕ) (outcome : TrapOutcome)
    → send r sender_task_id handle message reserved ≡ ok (r', outcome)
    → IsRefused r r' sender_task_id ⊎ IsSent r r' handle message
unfolding send
send_lem r r' handle message reserved outcome e =
    elim (Option-cases (send_refusal r sender_task_id handle reserved)) [
      | inr (status, refused) ↦ inl (
        status,
        send_refusal_refused r sender_task_id handle reserved status refused,
        (answer-IsFramed r r' sender_task_id status 0 outcome (ground arith)).1,
      )
      | inl accepted ↦ elim (Result-cases (deliver r message)) [
        | inr (x, bad) ↦ absurd (ground arith)
        | inl (r₁, delivered) ↦
            let (found, free) = send_refusal-none r sender_task_id handle reserved accepted in
            let (framed, reported) =
              answer-IsFramed r₁ r' sender_task_id TrapStatus.ok 0 outcome (ground arith) in
            let (same, endpoint) = sender_answer r₁ r' TrapStatus.ok 0 reported in
            inr (record {
              held = found;
              was_free = free;
              told = answer-answered r₁ r' sender_task_id TrapStatus.ok 0 outcome (ground arith);
              place = elim (deliver_lem r r₁ message delivered) [
                | inl (waits, awake, given, drains) ↦ inl (
                  waits,
                  ap (λ t. t.state) same ∙ awake,
                  ap (λ t. t.context.rdx) same ∙ given,
                  endpoint ∙ drains,
                )
                | inr (awake, kept, holds) ↦ inr (awake, same ∙ kept, endpoint ∙ holds)
              ];
            })
      ]
    ]
