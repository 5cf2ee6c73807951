-- ===== src/Runtime/Journaled/Reached.antt =====
-- The states that a journaled runtime reaches from its publication, as steps without an error.
use makopa_os.Common.{
  ℕ, ◌≡◌, refl, false, if◌then◌else◌, Option, ◌==◌, is_err, Result, ok, err, inl, inr, arith,
  Result-cases, Bool-cases, ◌>>=◌,
}
use makopa_os.Contexts.{TaskContextV1, TrapFrameV1}
use makopa_os.Runtime.State.{Runtime, TrapOutcome, slot}
use makopa_os.Journal
use makopa_os.Journal.{EffectJournalV1, ◌is◌}
use makopa_os.Runtime.Dispatch.{dispatch_next}
use makopa_os.Runtime.Traps.{running_task, capture_trap}
use makopa_os.Runtime.Teardown.{begin_teardown, complete_teardown}
use makopa_os.Runtime.Journaled.{JournaledRuntime, validate}
use makopa_os.Runtime.Journaled.Traps.{handle_journaled_trap}
use makopa_os.Runtime.Journaled.Validity.{handle_journaled_trap-valid}
use makopa_os.Runtime.Journaled.Publication.{new_journaled-valid}
use makopa_os.Runtime.Journaled.Scheduling.{dispatch-valid, capture-valid}
use makopa_os.Runtime.Journaled.Lifecycle.{
  new_journaled, begin_journaled_teardown, complete_journaled_teardown, finish_reclamation,
  record_end, seal_journal,
}

-- A step without an error. A trap is captured for the task that runs, with its root, which is not 0.
pub data Step (jr : JournaledRuntime) : JournaledRuntime → Type 0 where
  dispatches :
      (r' : Runtime) (next : Option ℕ)
      → dispatch_next jr.runtime ≡ ok (r', next)
      → Step jr (record jr { runtime = r' })
  captures :
      (r' : Runtime) (task : ℕ) (frame : TrapFrameV1) (root generation : ℕ)
      → running_task jr.runtime ≡ ok task
      → (root == 0) ≡ false
      → capture_trap jr.runtime task frame root generation ≡ ok r'
      → Step jr (record jr { runtime = r' })
  handles :
      (jr' : JournaledRuntime) (task : ℕ) (outcome : TrapOutcome)
      → handle_journaled_trap jr task ≡ (jr', ok outcome)
      → Step jr jr'
  begins_teardown :
      (jr' : JournaledRuntime) (task : ℕ) → begin_journaled_teardown jr task ≡ ok jr' → Step jr jr'
  completes_teardown :
      (jr' : JournaledRuntime) (task : ℕ) (next : Option ℕ)
      → complete_journaled_teardown jr task ≡ (jr', ok next)
      → Step jr jr'
  reclaims : (jr' : JournaledRuntime) → finish_reclamation jr ≡ (jr', ok tt) → Step jr jr'

pub data Reached : JournaledRuntime → Type 0 where
  starts : (s w : TaskContextV1) (jr : JournaledRuntime) → new_journaled s w ≡ ok jr → Reached jr
  goes : (jr jr' : JournaledRuntime) → Reached jr → Step jr jr' → Reached jr'

no_error : {E : Type 0} (v : Result E (Unit {0})) → is_err v ≡ false → v ≡ ok tt
no_error (ok u) e = refl
no_error (err x) e = absurd (cc)

begin_journaled_teardown-valid :
    (jr jr' : JournaledRuntime) (task : ℕ)
    → begin_journaled_teardown jr task ≡ ok jr'
    → validate jr' ≡ ok tt
unfolding begin_journaled_teardown
begin_journaled_teardown-valid jr jr' task e = elim (Result-cases (slot jr.runtime task)) [
  | inr (x, bad) ↦ absurd (ground arith)
  | inl (t, found) ↦
      elim (Result-cases
        (if jr.journal.state is Journal.live then record_end jr >>= seal_journal jr else ok jr)) [
          | inr (x, bad) ↦ absurd (ground arith)
          | inl (jr₁, ended) ↦ elim (Result-cases (begin_teardown jr₁.runtime task)) [
            | inr (x, bad) ↦ absurd (ground arith)
            | inl (r, torn) ↦ elim (Bool-cases (is_err (validate (record jr₁ { runtime = r })))) [
              | inl bad ↦ absurd (ground arith)
              | inr valid ↦
                  let same : record jr₁ { runtime = r } ≡ jr' = ground arith in
                  rw (← same) (no_error (validate (record jr₁ { runtime = r })) valid)
            ]
          ]
        ]
]

complete_journaled_teardown-valid :
    (jr jr' : JournaledRuntime) (task : ℕ) (next : Option ℕ)
    → complete_journaled_teardown jr task ≡ (jr', ok next)
    → validate jr' ≡ ok tt
unfolding complete_journaled_teardown
complete_journaled_teardown-valid jr jr' task next e =
    elim (Result-cases (complete_teardown jr.runtime task)) [
      | inr (x, bad) ↦ absurd (grind arith)
      | inl ((r, n), good) ↦ elim (Bool-cases (is_err (validate (record jr { runtime = r })))) [
        | inl bad ↦ absurd (grind arith)
        | inr valid ↦ no_error (validate jr') (grind arith)
      ]
    ]

finish_reclamation-valid :
    (jr jr' : JournaledRuntime) → finish_reclamation jr ≡ (jr', ok tt) → validate jr' ≡ ok tt
unfolding finish_reclamation
finish_reclamation-valid jr jr' e = no_error (validate jr') (ground arith)

step-valid : (jr jr' : JournaledRuntime) → validate jr ≡ ok tt → Step jr jr' → validate jr' ≡ ok tt
step-valid jr jr' v (dispatches r' next e) = dispatch-valid jr r' next v e
step-valid jr jr' v (captures r' task frame root generation runs rooted e) =
    capture-valid jr r' task frame root generation v runs rooted e
step-valid jr jr' v (handles jr″ task outcome e) =
    handle_journaled_trap-valid jr jr″ task outcome v e
step-valid jr jr' v (begins_teardown jr″ task e) = begin_journaled_teardown-valid jr jr″ task e
step-valid jr jr' v (completes_teardown jr″ task next e) =
    complete_journaled_teardown-valid jr jr″ task next e
step-valid jr jr' v (reclaims jr″ e) = finish_reclamation-valid jr jr″ e

-- Every state that is reached from a publication by dispatches, by captures of the running task with
-- a root other than 0, by traps, teardowns and the reclamation, each without an error, passes
-- `validate`: the runtime, the journal and the two together are well formed.
pub Reached-valid : (jr : JournaledRuntime) → Reached jr → validate jr ≡ ok tt
Reached-valid jr (starts s w jr' e) = new_journaled-valid s w jr' e
Reached-valid jr (goes before jr' p step) = step-valid before jr' (Reached-valid before p) step
