-- ===== src/Runtime/Journaled/Validity.antt =====
-- What holds of the runtime and its journal after a trap that does not fail.
use makopa_os.Common.{
  ℕ, ◌≡◌, ◌⊎◌, refl, sym, ◌∙◌, ap, subst, Option, ◌==◌, ◌/=◌, Result, ok, err, inl, inr, arith,
  Result-cases, Option-cases, Bool-cases,
}
use makopa_os.Abi.{RuntimeError, wrong_state, journal_invariant, TrapStatus, TrapOperation}
use makopa_os.Contexts.{TaskContextV1}
use makopa_os.Runtime.State.{Runtime, TrapOutcome, resume, slot, change_slot, report}
use makopa_os.Runtime.Traps.{parse, running_task, handle_trap}
use makopa_os.Runtime.Validate
use makopa_os.Runtime.Validate.{validate_slot}
use makopa_os.Runtime.Supervised.{
  validate_supervised, validate_launch, validate_broker, validate_effect,
}
use makopa_os.Runtime.Cooperative.{validate_cooperative}
use makopa_os.Runtime.Journaled.Verdicts.{IsSettled, passes, fails, backs, record_trap-IsSettled}
use makopa_os.Runtime.Journaled.{JournaledRuntime, validate}
use makopa_os.Runtime.Journaled.Traps.{
  output, set_journal_output, Words, read_refusal, read_output, Outcome, handle_journal_read,
  put_back, Verdict, goes_on, record_trap, conclude_trap, handle_recorded_trap, is_journal_read,
  read_operation, handle_journaled_trap,
}

-- A result that, when it is no error, leaves a state that validates.
abbrev pub IsKept : Outcome → Type 0
IsKept (jr, ok o) = validate jr ≡ ok tt
IsKept (jr, err e) = Unit

-- The last check of a trap: what it lets through validates.
abbrev checked :
    JournaledRuntime
    → TrapOutcome
    → RuntimeError
    → JournaledRuntime
    → Result RuntimeError (Unit {0})
    → Outcome
checked jr o e back (ok u) = (jr, ok o)
checked jr o e back (err x) = (back, err e)

checked-IsKept :
    (jr : JournaledRuntime) (o : TrapOutcome) (e : RuntimeError) (back : JournaledRuntime)
    (v : Result RuntimeError (Unit {0}))
    → validate jr ≡ v
    → IsKept (checked jr o e back v)
checked-IsKept jr o e back (ok u) h = h
checked-IsKept jr o e back (err x) h = tt

by_run : (p q : Outcome) → p ≡ q → IsKept q → IsKept p
by_run p q e i = subst (λ (x : Outcome). IsKept x) (sym e) i

set_output-valid :
    (jr : JournaledRuntime) (status : TrapStatus) (values : Words)
    → validate (record jr {
      runtime = record jr.runtime {
        sender = record jr.runtime.sender {
          context = output status values jr.runtime.sender.context;
        };
      };
    })
      ≡ validate jr
unfolding validate Validate.validate validate_slot validate_supervised validate_cooperative
    validate_launch validate_broker validate_effect
set_output-valid jr status values = refl

abbrev with_output : JournaledRuntime → TrapStatus → Words → JournaledRuntime
with_output jr status values = record jr {
  runtime = record jr.runtime {
    sender = record jr.runtime.sender { context = output status values jr.runtime.sender.context };
  };
}

abbrev with_output₂ : JournaledRuntime → TrapStatus → Words → JournaledRuntime
with_output₂ jr status values = record jr {
  runtime = record jr.runtime {
    receiver = record jr.runtime.receiver {
      context = output status values jr.runtime.receiver.context;
    };
  };
}

set_output₂-valid :
    (jr : JournaledRuntime) (status : TrapStatus) (values : Words)
    → validate (with_output₂ jr status values) ≡ validate jr
unfolding validate Validate.validate validate_slot validate_supervised validate_cooperative
    validate_launch validate_broker validate_effect
set_output₂-valid jr status values = refl

pub set_journal_output-cases :
    (jr jr' : JournaledRuntime) (task : ℕ) (status : TrapStatus) (values : Words)
    → set_journal_output jr task status values ≡ ok jr'
    → (jr' ≡ with_output jr status values) ⊎ (jr' ≡ with_output₂ jr status values)
unfolding set_journal_output change_slot
set_journal_output-cases jr jr' task status values e = elim (Bool-cases (task == 1)) [
  | inl one ↦ inl (ground arith)
  | inr other ↦ elim (Bool-cases (task == 2)) [
    | inl two ↦ inr (ground arith)
    | inr neither ↦ absurd (ground arith)
  ]
]

-- The words that a read puts out do not matter to the checks.
set_journal_output-valid :
    (jr jr' : JournaledRuntime) (task : ℕ) (status : TrapStatus) (values : Words)
    → set_journal_output jr task status values ≡ ok jr'
    → validate jr ≡ ok tt
    → validate jr' ≡ ok tt
set_journal_output-valid jr jr' task status values e v =
    elim (set_journal_output-cases jr jr' task status values e) [
      | inl same ↦ ap validate same ∙ set_output-valid jr status values ∙ v
      | inr same ↦ ap validate same ∙ set_output₂-valid jr status values ∙ v
    ]

handle_journal_read-IsKept :
    (jr : JournaledRuntime) (task : ℕ) (operation : TrapOperation) (input : TaskContextV1)
    → validate jr ≡ ok tt
    → IsKept (handle_journal_read jr task operation input)
unfolding handle_journal_read
handle_journal_read-IsKept jr task operation input v =
    elim (Option-cases (read_refusal jr task operation input)) [
      | inr (status, refused) ↦ elim (Result-cases (set_journal_output jr task status (0, 0, 0))) [
        | inr (x, bad) ↦
            by_run (handle_journal_read jr task operation input) (jr, err x)
              (rw (refused, bad, handle_journal_read) refl) tt
        | inl (jr', good) ↦
            by_run (handle_journal_read jr task operation input) (jr', ok (resume task))
              (rw (refused, good, handle_journal_read) refl)
              (set_journal_output-valid jr jr' task status (0, 0, 0) good v)
      ]
      | inl accepted ↦
          let (status, words) = read_output jr operation input in
          elim (Result-cases (set_journal_output jr task status words)) [
            | inr (x, bad) ↦
                by_run (handle_journal_read jr task operation input) (jr, err x)
                  (rw (accepted, bad, handle_journal_read) refl) tt
            | inl (jr', good) ↦
                by_run (handle_journal_read jr task operation input) (jr', ok (resume task))
                  (rw
                    (
                      accepted,
                      good,
                      set_journal_output-valid jr jr' task status words good v,
                      handle_journal_read,
                    )
                    refl)
                  (set_journal_output-valid jr jr' task status words good v)
          ]
    ]

put_back-IsKept :
    (before : JournaledRuntime) (task : ℕ) (status : TrapStatus)
    → IsKept (put_back before task status)
unfolding put_back
put_back-IsKept before task status = elim (Result-cases (report before.runtime task status 0)) [
  | inr (x, bad) ↦ by_run (put_back before task status) (before, err x) (rw (bad, put_back) refl) tt
  | inl (r, good) ↦
      let jr : JournaledRuntime = record before { runtime = r } in
      elim (Result-cases (validate jr)) [
        | inr (x, bad) ↦
            by_run (put_back before task status) (jr, err x) (rw (good, bad, put_back) refl) tt
        | inl (u, valid) ↦
            by_run (put_back before task status) (jr, ok (resume task))
              (rw (good, valid, put_back) refl) valid
      ]
]

concluded-IsKept :
    (before jr : JournaledRuntime) (outcome : TrapOutcome)
    → IsKept (conclude_trap before outcome (goes_on jr))
unfolding conclude_trap
concluded-IsKept before jr outcome = elim (Result-cases (validate jr)) [
  | inr (e, bad) ↦
      by_run (conclude_trap before outcome (goes_on jr)) (before, err journal_invariant)
        (rw (bad, conclude_trap) refl) tt
  | inl (u, good) ↦
      by_run (conclude_trap before outcome (goes_on jr)) (jr, ok outcome)
        (rw (good, conclude_trap) refl) good
]

conclude_trap-IsKept :
    (before : JournaledRuntime) (r : Runtime) (outcome : TrapOutcome) (v : Verdict)
    → IsSettled before r v
    → IsKept (conclude_trap before outcome v)
unfolding conclude_trap
conclude_trap-IsKept before r outcome v (passes r' journal e) =
    concluded-IsKept before (record { runtime = r'; journal = journal }) outcome
conclude_trap-IsKept before r outcome v (fails jr e) = tt
conclude_trap-IsKept before r outcome v (backs task status) = put_back-IsKept before task status

handle_recorded_trap-IsKept :
    (jr : JournaledRuntime) (task : ℕ) (input : TaskContextV1) (operation : Option TrapOperation)
    → IsKept (handle_recorded_trap jr task input operation)
unfolding handle_recorded_trap
handle_recorded_trap-IsKept jr task input operation =
    let x = handle_trap jr.runtime task in
    elim (Result-cases x.1) [
      | inr (e, bad) ↦
          by_run (handle_recorded_trap jr task input operation) (jr, err e)
            (rw (bad, handle_recorded_trap) refl) tt
      | inl (outcome, good) ↦
          let v = record_trap jr x.0 task input operation in
          by_run (handle_recorded_trap jr task input operation) (conclude_trap jr outcome v)
            (rw (good, handle_recorded_trap) refl)
            (conclude_trap-IsKept jr x.0 outcome v
              (record_trap-IsSettled jr x.0 task input operation))
    ]

trap-IsKept :
    (jr : JournaledRuntime) (task : ℕ)
    → validate jr ≡ ok tt
    → IsKept (handle_journaled_trap jr task)
unfolding handle_journaled_trap
trap-IsKept jr task v = elim (Result-cases (running_task jr.runtime)) [
  | inr (e, bad) ↦
      by_run (handle_journaled_trap jr task) (jr, err e) (rw (bad, handle_journaled_trap) refl) tt
  | inl (current, runs) ↦ elim (Bool-cases (current /= task)) [
    | inl other ↦
        by_run (handle_journaled_trap jr task) (jr, err wrong_state)
          (rw (runs, other, handle_journaled_trap) refl) tt
    | inr same ↦ elim (Result-cases (slot jr.runtime task)) [
      | inr (e, bad) ↦
          by_run (handle_journaled_trap jr task) (jr, err e)
            (rw (runs, same, bad, handle_journaled_trap) refl) tt
      | inl (t, found) ↦ elim (Bool-cases (is_journal_read (parse t.context.rax))) [
        | inl reads ↦
            by_run (handle_journaled_trap jr task)
              (handle_journal_read jr task (read_operation (parse t.context.rax)) t.context)
              (rw (runs, same, found, reads, handle_journaled_trap) refl)
              (handle_journal_read-IsKept jr task (read_operation (parse t.context.rax)) t.context
                v)
        | inr writes ↦
            by_run (handle_journaled_trap jr task)
              (handle_recorded_trap jr task t.context (parse t.context.rax))
              (rw (runs, same, found, writes, handle_journaled_trap) refl)
              (handle_recorded_trap-IsKept jr task t.context (parse t.context.rax))
      ]
    ]
  ]
]

-- A trap that does not fail, in a state that validates, ends in one: the runtime and the journal are
-- both well formed, and the journal keeps free exactly the records that the phase of the broker
-- still needs.
pub handle_journaled_trap-valid :
    (jr jr' : JournaledRuntime) (task : ℕ) (outcome : TrapOutcome)
    → validate jr ≡ ok tt
    → handle_journaled_trap jr task ≡ (jr', ok outcome)
    → validate jr' ≡ ok tt
handle_journaled_trap-valid jr jr' task outcome v e =
    subst (λ (x : Outcome). IsKept x) e (trap-IsKept jr task v)
