-- ===== src/Runtime/Queue/Order.antt =====
-- The run queue as a first-in, first-out list of at most two different tasks.
use makopa_os.Common.{
  ℕ, ◌<◌, ◌≡◌, ◌≢◌, refl, sym, ◌∙◌, ap, true, false, none, some, List, [], ◌∷◌, ◌++◌, ◌==◌, any, ok,
  err, arith, length, Bool-cases, inl, inr, ◌⊎◌, append_assoc,
}
use makopa_os.Abi.{duplicate_queue_member, queue_full}
use makopa_os.Runtime.Queue.{RunQueue, empty_queue, first, contains, push, shift, pop, task_count}

-- The tasks in the queue, the next one first.
abbrev pub waiting : RunQueue → List ℕ
waiting q = first q.len q.entries

-- The three shapes of a well-formed queue: its unused part is 0, and no task stands in it twice.
pub data IsQueue : RunQueue → Type 0 where
  nobody : IsQueue (record { entries = 0 ∷ 0 ∷ []; len = 0 })
  one : (a : ℕ) → IsQueue (record { entries = a ∷ 0 ∷ []; len = 1 })
  both : (a b : ℕ) → a ≢ b → IsQueue (record { entries = a ∷ b ∷ []; len = 2 })

push-IsQueue : (q : RunQueue) (task : ℕ) → IsQueue q → IsQueue (push q task).0
unfolding push contains
push-IsQueue q task nobody = one task
push-IsQueue q task (one a) = elim (Bool-cases (a == task)) [
  | inl same ↦ rw (same) (one a)
  | inr other ↦ rw (other) (both a task (ground arith))
]
push-IsQueue q task (both a b n) = elim (Bool-cases (any (λ t. t == task) (a ∷ b ∷ []))) [
  | inl same ↦ rw same (both a b n)
  | inr other ↦ rw other (both a b n)
]

pop-IsQueue : (q : RunQueue) → IsQueue q → IsQueue (pop q).0
unfolding pop shift
pop-IsQueue q nobody = nobody
pop-IsQueue q (one a) = nobody
pop-IsQueue q (both a b n) = one b

-- A push that succeeds puts the task last; it is refused exactly for a task that waits already, or
-- for a third one, and changes nothing then.
pub push_lem :
    (q : RunQueue) (task : ℕ)
    → IsQueue q
    → (((push q task).1 ≡ ok tt)
        × (waiting (push q task).0 ≡ waiting q ++ task ∷ [])
        × (any (λ t. t == task) (waiting q) ≡ false)
        × (length (waiting q) < task_count))
      ⊎ (((push q task).1 ≡ err duplicate_queue_member)
          × ((push q task).0 ≡ q)
          × (any (λ t. t == task) (waiting q) ≡ true))
      ⊎ (((push q task).1 ≡ err queue_full)
          × ((push q task).0 ≡ q)
          × (length (waiting q) ≡ task_count))
unfolding push contains
push_lem q task nobody = inl (refl, refl, refl, omega arith)
push_lem q task (one a) = elim (Bool-cases (a == task)) [
  | inl same ↦ inr (inl (ground arith, ground arith, ground arith))
  | inr other ↦ inl (ground arith, ground arith, ground arith, omega arith)
]
push_lem q task (both a b n) = elim (Bool-cases (any (λ t. t == task) (a ∷ b ∷ []))) [
  | inl same ↦ inr (inl (ground arith, ground arith, same))
  | inr other ↦ inr (inr (ground arith, ground arith, refl))
]

pop_lem :
    (q : RunQueue)
    → IsQueue q
    → (((pop q).1 ≡ none) × ((pop q).0 ≡ q) × (waiting q ≡ []))
      ⊎ ((task : ℕ) × ((pop q).1 ≡ some task) × (waiting q ≡ task ∷ waiting (pop q).0))
unfolding pop shift
pop_lem q nobody = inl (refl, refl, refl)
pop_lem q (one a) = inr (a, refl, refl)
pop_lem q (both a b n) = inr (a, refl, refl)

pub data Call : Type 0 where
  pushes : ℕ → Call
  pops : Call

-- A queue with the tasks that it has accepted and those that it has given out, in their order.
pub record Log : Type 0 where
  pub queue : RunQueue
  pub accepted : List ℕ
  pub given : List ℕ

unfoldable pub step : Log → Call → Log
step l (pushes task) =
    let (q, result) = push l.queue task in
    elim result [
      | ok u ↦ record l { queue = q; accepted = l.accepted ++ task ∷ [] }
      | err e ↦ record l { queue = q }
    ]
step l pops =
    let (q, result) = pop l.queue in
    elim result [
      | none ↦ record l { queue = q }
      | some task ↦ record l { queue = q; given = l.given ++ task ∷ [] }
    ]

unfoldable pub run : Log → List Call → Log
unfolding step
run l [] = l
run l (c ∷ cs) = run (step l c) cs

-- What was accepted is what was given out, and then what waits.
record IsOrdered (l : Log) : Type 0 where
  pub queue : IsQueue l.queue
  pub order : l.accepted ≡ l.given ++ waiting l.queue

step-IsOrdered : (l : Log) (c : Call) → IsOrdered l → IsOrdered (step l c)
unfolding step
step-IsOrdered l (pushes task) i = elim (push_lem l.queue task i.queue) [
  | inl (result, now, fresh, room) ↦
      rw (result, step)
        (record {
          queue = push-IsQueue l.queue task i.queue;
          order =
              ap (λ ts. ts ++ task ∷ []) i.order
              ∙ append_assoc l.given (waiting l.queue) (task ∷ [])
              ∙ ap (λ ts. l.given ++ ts) (sym now);
        })
  | inr (inl (result, same, known)) ↦ rw (result, step, same) i
  | inr (inr (result, same, full)) ↦ rw (result, step, same) i
]
step-IsOrdered l pops i = elim (pop_lem l.queue i.queue) [
  | inl (result, same, nothing) ↦ rw (result, step, same) i
  | inr (task, result, was) ↦
      rw (result, step)
        (record {
          queue = pop-IsQueue l.queue i.queue;
          order =
              i.order
              ∙ ap (λ ts. l.given ++ ts) was
              ∙ sym (append_assoc l.given (task ∷ []) (waiting (pop l.queue).0));
        })
]

run-IsOrdered : (l : Log) (cs : List Call) → IsOrdered l → IsOrdered (run l cs)
unfolding run
run-IsOrdered l [] i = i
run-IsOrdered l (c ∷ cs) i = run-IsOrdered (step l c) cs (step-IsOrdered l c i)

abbrev pub empty_log : Log
empty_log = record { queue = empty_queue; accepted = []; given = [] }

-- Over any run of pushes and pops from an empty queue, the tasks come out in the order in which they
-- were accepted: those accepted are those given out followed by those that wait; and at every moment
-- no task waits twice and at most two wait.
pub fifo_order :
    (cs : List Call)
    → let l = run empty_log cs in (l.accepted ≡ l.given ++ waiting l.queue) × IsQueue l.queue
fifo_order cs =
    let ordered = run-IsOrdered empty_log cs (record { queue = nobody; order = refl }) in
    (ordered.order, ordered.queue)
