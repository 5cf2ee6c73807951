-- ===== src/Runtime/Journaled/Scheduling.antt =====
-- `JournaledRuntime::dispatch_next` and `capture_trap`, which reach the runtime alone.
use makopa_os.Common.{
  ℕ, ◌≡◌, refl, sym, ◌∙◌, ap, subst, true, false, ◌&&◌, Option, ◌==◌, ok, inl, inr, arith,
  Result-cases, Option-cases, Bool-cases,
}
use makopa_os.Abi.{TaskState, ready, running}
use makopa_os.Contexts.{TaskContextV1, TrapFrameV1, from_trap}
use makopa_os.Runtime.State.{Runtime, TaskSlot, slot, put_state, change_slot, ◌in_state◌, task_code}
use makopa_os.Runtime.Shapes.{all_dead}
use makopa_os.Runtime.Queue.{RunQueue, pop}
use makopa_os.Runtime.Validate
use makopa_os.Runtime.Validate.{validate_slot}
use makopa_os.Capabilities.Table
use makopa_os.Runtime.Supervised.{
  validate_supervised, validate_launch, validate_broker, validate_effect,
}
use makopa_os.Runtime.Cooperative.{validate_cooperative}
use makopa_os.Runtime.Dispatch.{dispatch_next}
use makopa_os.Runtime.Traps.{running_task, capture_trap}
use makopa_os.Runtime.Journaled.{JournaledRuntime, validate}
use makopa_os.Runtime.Journaled.Framing.{validate-framed, base_valid}

-- A dispatch moves a task that is alive, and checks the runtime.
record IsDispatched (r r' : Runtime) : Type 0 where
  valid : Validate.validate r' ≡ ok tt
  broker : r'.broker ≡ r.broker
  sender : r'.sender.capabilities ≡ r.sender.capabilities
  receiver : r'.receiver.capabilities ≡ r.receiver.capabilities
  dead : all_dead r' ≡ all_dead r
  gone : (r'.receiver in_state TaskState.dead) ≡ (r.receiver in_state TaskState.dead)

put_running :
    (r r' : Runtime) (q : RunQueue) (task : ℕ) (t : TaskSlot)
    → slot r task ≡ ok t
    → (t in_state ready) ≡ true
    → put_state (record r { queue = q }) task running ≡ ok r'
    → Validate.validate r' ≡ ok tt
    → IsDispatched r r'
unfolding slot put_state change_slot
put_running r r' q task t found is_ready put valid = elim (Bool-cases (task == 1)) [
  | inl one ↦ record {
    valid = valid;
    broker = ground arith;
    sender = ground arith;
    receiver = ground arith;
    dead = ground arith;
    gone = ground arith;
  }
  | inr other ↦ elim (Bool-cases (task == 2)) [
    | inl two ↦ record {
      valid = valid;
      broker = ground arith;
      sender = ground arith;
      receiver = ground arith;
      dead = ground arith;
      gone = ground arith;
    }
    | inr neither ↦ absurd (ground arith)
  ]
]

dispatch_next-IsDispatched :
    (r r' : Runtime) (next : Option ℕ)
    → Validate.validate r ≡ ok tt
    → dispatch_next r ≡ ok (r', next)
    → IsDispatched r r'
unfolding dispatch_next
dispatch_next-IsDispatched r r' next v e = elim (Option-cases (pop r.queue).1) [
  | inl none_waits ↦
      let same : r ≡ r' = ground arith in
      subst (λ (x : Runtime). IsDispatched r x) same
        (record {
          valid = v;
          broker = refl;
          sender = refl;
          receiver = refl;
          dead = refl;
          gone = refl;
        })
  | inr (task, waits) ↦ elim (Result-cases (slot r task)) [
    | inr (x, bad) ↦ absurd (ground arith)
    | inl (t, found) ↦
        elim (Result-cases (put_state (record r { queue = (pop r.queue).0 }) task running)) [
          | inr (x, bad) ↦ absurd (ground arith)
          | inl (r₂, put) ↦ elim (Result-cases (Validate.validate r₂)) [
            | inr (x, bad) ↦ absurd (ground arith)
            | inl (u, valid) ↦
                let same : r₂ ≡ r' = ground arith in
                subst (λ (x : Runtime). IsDispatched r x) same
                  (put_running r r₂ (pop r.queue).0 task t found (ground arith) put valid)
          ]
        ]
  ]
]

pub dispatch-valid :
    (jr : JournaledRuntime) (r' : Runtime) (next : Option ℕ)
    → validate jr ≡ ok tt
    → dispatch_next jr.runtime ≡ ok (r', next)
    → validate (record jr { runtime = r' }) ≡ ok tt
dispatch-valid jr r' next v e =
    let base = base_valid jr v in
    let d = dispatch_next-IsDispatched jr.runtime r' next base e in
    validate-framed jr (record jr { runtime = r' }) refl d.broker d.sender d.receiver d.dead d.gone
      (d.valid ∙ sym base)
    ∙ v

-- The context of a task that runs: any registers, with the task's own id, generation and a root.
capture_slot :
    (q : RunQueue) (t : TaskSlot) (c : TaskContextV1)
    → (t in_state running) ≡ true
    → c.task_id ≡ t.id
    → c.generation ≡ t.generation
    → (c.root == 0) ≡ false
    → validate_slot q t ≡ ok tt
    → validate_slot q (record t { context = c }) ≡ ok tt
unfolding validate_slot
capture_slot q t c runs i g root v = elim (Result-cases (Table.validate t.capabilities)) [
  | inr (x, bad) ↦ absurd (ground arith)
  | inl (u, fits) ↦ ground arith
]

abbrev sender_with : Runtime → TaskContextV1 → Runtime
sender_with r c = record r { sender = record r.sender { context = c } }

abbrev receiver_with : Runtime → TaskContextV1 → Runtime
receiver_with r c = record r { receiver = record r.receiver { context = c } }

sender_with-valid :
    (r : Runtime) (c : TaskContextV1)
    → validate_slot r.queue (record r.sender { context = c }) ≡ validate_slot r.queue r.sender
    → Validate.validate (sender_with r c) ≡ Validate.validate r
unfolding Validate.validate validate_supervised validate_cooperative validate_launch validate_broker
    validate_effect
sender_with-valid r c e = rw e refl

receiver_with-valid :
    (r : Runtime) (c : TaskContextV1)
    → validate_slot r.queue (record r.receiver { context = c }) ≡ validate_slot r.queue r.receiver
    → Validate.validate (receiver_with r c) ≡ Validate.validate r
unfolding Validate.validate validate_supervised validate_cooperative validate_launch validate_broker
    validate_effect
receiver_with-valid r c e = rw e refl

slots_valid :
    (r : Runtime)
    → Validate.validate r ≡ ok tt
    → ((r.sender in_state running && r.receiver in_state running) ≡ false)
      × (validate_slot r.queue r.sender ≡ ok tt)
      × (validate_slot r.queue r.receiver ≡ ok tt)
unfolding Validate.validate
slots_valid r v = elim (Result-cases (validate_slot r.queue r.sender)) [
  | inr (x, bad) ↦ absurd (ground arith)
  | inl (u, sender) ↦ elim (Result-cases (validate_slot r.queue r.receiver)) [
    | inr (x, bad) ↦ absurd (ground arith)
    | inl (w, receiver) ↦ (ground arith, sender, receiver)
  ]
]

record IsCaptured (r r' : Runtime) : Type 0 where
  valid : Validate.validate r' ≡ Validate.validate r
  framed :
      (r'.broker ≡ r.broker)
      × (r'.sender.capabilities ≡ r.sender.capabilities)
      × (r'.receiver.capabilities ≡ r.receiver.capabilities)
      × (r'.sender.state ≡ r.sender.state)
      × (r'.receiver.state ≡ r.receiver.state)

capture_trap-IsCaptured :
    (r r' : Runtime) (task : ℕ) (frame : TrapFrameV1) (root generation : ℕ)
    → Validate.validate r ≡ ok tt
    → running_task r ≡ ok task
    → (root == 0) ≡ false
    → capture_trap r task frame root generation ≡ ok r'
    → IsCaptured r r'
unfolding capture_trap slot change_slot from_trap running_task
capture_trap-IsCaptured r r' task frame root generation v runs rooted e =
    let (apart, sender, receiver) = slots_valid r v in
    let c = from_trap frame task generation root in
    elim (Bool-cases (task == 1)) [
      | inl one ↦
          let same : sender_with r c ≡ r' = ground arith in
          let fits : validate_slot r.queue (record r.sender { context = c }) ≡ ok tt =
            capture_slot r.queue r.sender c (ground arith) (ground arith) (ground arith) rooted
              sender in
          subst (λ (x : Runtime). IsCaptured r x) same
            (record {
              valid = sender_with-valid r c (fits ∙ sym sender);
              framed = (refl, refl, refl, refl, refl);
            })
      | inr other ↦
          let two : (task == 2) ≡ true = ground arith in
          let same : receiver_with r c ≡ r' = ground arith in
          let fits : validate_slot r.queue (record r.receiver { context = c }) ≡ ok tt =
            capture_slot r.queue r.receiver c (ground arith) (ground arith) (ground arith) rooted
              receiver in
          subst (λ (x : Runtime). IsCaptured r x) same
            (record {
              valid = receiver_with-valid r c (fits ∙ sym receiver);
              framed = (refl, refl, refl, refl, refl);
            })
    ]

-- A capture of the task that runs, with its root.
pub capture-valid :
    (jr : JournaledRuntime) (r' : Runtime) (task : ℕ) (frame : TrapFrameV1) (root generation : ℕ)
    → validate jr ≡ ok tt
    → running_task jr.runtime ≡ ok task
    → (root == 0) ≡ false
    → capture_trap jr.runtime task frame root generation ≡ ok r'
    → validate (record jr { runtime = r' }) ≡ ok tt
capture-valid jr r' task frame root generation v runs rooted e =
    let k =
      capture_trap-IsCaptured jr.runtime r' task frame root generation (base_valid jr v) runs rooted
        e in
    let (broker, sender, receiver, s, w) = k.framed in
    validate-framed jr (record jr { runtime = r' }) refl broker sender receiver
      (ap (λ x. task_code x == 6 && (r'.receiver in_state TaskState.dead)) s
        ∙ ap (λ x. (jr.runtime.sender in_state TaskState.dead) && task_code x == 6) w)
      (ap (λ x. task_code x == 6) w) k.valid
    ∙ v
