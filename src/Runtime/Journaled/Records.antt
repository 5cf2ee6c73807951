-- ===== src/Runtime/Journaled/Records.antt =====
-- The effect and its record in the journal.
use makopa_os.Common.{
  ℕ, ◌≡◌, ◌⊎◌, refl, sym, ◌∙◌, ap, subst, true, false, ◌&&◌, some, ◌/=◌, ok, inl, inr, arith,
  Result-cases, Option-cases, Bool-cases, ok_injective,
}
use makopa_os.Abi.{TrapStatus, TrapOperation}
use makopa_os.Contexts.{TaskContextV1}
use makopa_os.Journal.{append_reserved}
use makopa_os.Journal.Records.{EffectEventKind, EffectRecordV1}
use makopa_os.Runtime.State.{
  Runtime, TaskSlot, TrapOutcome, report, slot, approved, empty, ◌in_phase◌, answered,
}
use makopa_os.Runtime.Approval.Commit.{IsCommitted}
use makopa_os.Runtime.Frame.{report-IsFramed}
use makopa_os.Runtime.Journaled.Validity.{set_journal_output-cases}
use makopa_os.Runtime.Journaled.Verdicts.{IsSettled, passes, fails, backs, record_trap-IsSettled}
use makopa_os.Runtime.Traps.{parse, running_task, handle_trap}
use makopa_os.Runtime.Traps.Effects.{handle_trap_lem, IsWrittenByCommit}
use makopa_os.Runtime.Journaled.{JournaledRuntime, validate}
use makopa_os.Runtime.Journaled.Traps.{
  set_journal_output, handle_journal_read, Words, read_refusal, read_output, Verdict, put_back,
  goes_on, record_reserved, commit_event, record_trap, conclude_trap, handle_recorded_trap,
  handle_journaled_trap, is_journal_read, read_operation,
}

-- The effect was written by a commit, and the record that says so is in the journal.
pub record IsRecorded (jr jr' : JournaledRuntime) (task : ℕ) : Type 0 where
  pub written : IsWrittenByCommit jr.runtime jr'.runtime task
  pub appended :
      append_reserved jr.journal
        (commit_event jr EffectEventKind.completed TrapStatus.ok jr'.runtime.broker.decision_epoch)
        false
      ≡ (jr'.journal, ok tt)

concluded-ok :
    (before jr jr' : JournaledRuntime) (o o' : TrapOutcome)
    → conclude_trap before o (goes_on jr) ≡ (jr', ok o')
    → jr ≡ jr'
unfolding conclude_trap
concluded-ok before jr jr' o o' e = elim (Result-cases (validate jr)) [
  | inr (x, bad) ↦ absurd (grind arith)
  | inl (u, good) ↦ grind arith
]

-- A record in the place of a reserved one, in a trap that does not fail.
recorded-ok :
    (before jr' : JournaledRuntime) (r : Runtime) (rec : EffectRecordV1) (o o' : TrapOutcome)
    → conclude_trap before o (record_reserved before r rec false) ≡ (jr', ok o')
    → (jr'.runtime ≡ r) × (append_reserved before.journal rec false ≡ (jr'.journal, ok tt))
unfolding conclude_trap record_reserved
recorded-ok before jr' r rec o o' e =
    let x = append_reserved before.journal rec false in
    elim (Result-cases x.1) [
      | inr (y, bad) ↦ absurd (grind arith)
      | inl (u, good) ↦
          let same =
            concluded-ok before (record { runtime = r; journal = x.0 }) jr' o o' (grind arith) in
          (sym (ap (λ j. j.runtime) same), grind arith)
    ]

put_back-effect :
    (before jr' : JournaledRuntime) (task : ℕ) (status : TrapStatus) (o : TrapOutcome)
    → put_back before task status ≡ (jr', ok o)
    → jr'.runtime.effect ≡ before.runtime.effect
unfolding put_back
put_back-effect before jr' task status o e =
    elim (Result-cases (report before.runtime task status 0)) [
      | inr (x, bad) ↦ absurd (grind arith)
      | inl (r, told) ↦ elim (Result-cases (validate (record before { runtime = r }))) [
        | inr (x, bad) ↦ absurd (grind arith)
        | inl (u, good) ↦ let f = report-IsFramed before.runtime r task status 0 told in grind arith
      ]
    ]

settled-effect :
    (before jr' : JournaledRuntime) (r : Runtime) (o o' : TrapOutcome) (v : Verdict)
    → r.effect ≡ before.runtime.effect
    → IsSettled before r v
    → conclude_trap before o v ≡ (jr', ok o')
    → jr'.runtime.effect ≡ before.runtime.effect
unfolding conclude_trap
settled-effect before jr' r o o' v same (passes r' journal p) e =
    let k = concluded-ok before (record { runtime = r'; journal = journal }) jr' o o' e in
    sym (ap (λ j. j.runtime.effect) k) ∙ p ∙ same
settled-effect before jr' r o o' v same (fails jr x) e = absurd (grind arith)
settled-effect before jr' r o o' v same (backs task status) e =
    put_back-effect before jr' task status o' e

committed-recorded :
    (jr jr' : JournaledRuntime) (r : Runtime) (task : ℕ) (input : TaskContextV1)
    (o o' : TrapOutcome)
    → IsCommitted jr.runtime r task input.rdi input.rsi input.rdx
    → conclude_trap jr o (record_trap jr r task input (some TrapOperation.commit_effect))
      ≡ (jr', ok o')
    → (jr'.runtime ≡ r)
      × (append_reserved jr.journal
            (commit_event jr EffectEventKind.completed TrapStatus.ok r.broker.decision_epoch)
            false
          ≡ (jr'.journal, ok tt))
unfolding record_trap
committed-recorded jr jr' r task input o o' c e =
    let taken : (jr.runtime.broker in_phase approved
          && r.broker in_phase empty
          && answered r task TrapStatus.ok)
        ≡ true =
      rw (c.told, c.was_approved, c.used_up) refl in
    let v = record_trap jr r task input (some TrapOperation.commit_effect) in
    let rec = commit_event jr EffectEventKind.completed TrapStatus.ok r.broker.decision_epoch in
    let run : v ≡ record_reserved jr r rec false = rw (taken, record_trap) refl in
    recorded-ok jr jr' r rec o o' (ap (λ w. conclude_trap jr o w) (sym run) ∙ e)

output-effect :
    (jr jr' : JournaledRuntime) (task : ℕ) (status : TrapStatus) (values : Words)
    → set_journal_output jr task status values ≡ ok jr'
    → jr'.runtime.effect ≡ jr.runtime.effect
output-effect jr jr' task status values e =
    elim (set_journal_output-cases jr jr' task status values e) [
      | inl same ↦ ap (λ j. j.runtime.effect) same
      | inr same ↦ ap (λ j. j.runtime.effect) same
    ]

read-effect :
    (jr jr' : JournaledRuntime) (task : ℕ) (operation : TrapOperation) (input : TaskContextV1)
    (o : TrapOutcome)
    → handle_journal_read jr task operation input ≡ (jr', ok o)
    → jr'.runtime.effect ≡ jr.runtime.effect
unfolding handle_journal_read
read-effect jr jr' task operation input o e =
    elim (Option-cases (read_refusal jr task operation input)) [
      | inr (status, refused) ↦ elim (Result-cases (set_journal_output jr task status (0, 0, 0))) [
        | inr (x, bad) ↦ absurd (grind arith)
        | inl (j, good) ↦ let kept = output-effect jr j task status (0, 0, 0) good in grind arith
      ]
      | inl accepted ↦
          let (status, words) = read_output jr operation input in
          elim (Result-cases (set_journal_output jr task status words)) [
            | inr (x, bad) ↦ absurd (grind arith)
            | inl (j, good) ↦
                let kept = output-effect jr j task status words good in
                elim (Result-cases (validate j)) [
                  | inr (x, bad) ↦ absurd (grind arith)
                  | inl (u, valid) ↦ grind arith
                ]
          ]
    ]

commit-IsRecorded :
    (jr jr' : JournaledRuntime) (task : ℕ) (t : TaskSlot) (o outcome : TrapOutcome)
    → slot jr.runtime task ≡ ok t
    → IsWrittenByCommit jr.runtime (handle_trap jr.runtime task).0 task
    → conclude_trap jr outcome
        (record_trap jr (handle_trap jr.runtime task).0 task t.context (parse t.context.rax))
      ≡ (jr', ok o)
    → IsRecorded jr jr' task
commit-IsRecorded jr jr' task t o outcome found w e =
    let r = (handle_trap jr.runtime task).0 in
    let same : w.asker ≡ t = ok_injective (sym w.is_asker ∙ found) in
    let asks : parse t.context.rax ≡ some TrapOperation.commit_effect =
      ap (λ (s : TaskSlot). parse s.context.rax) (sym same) ∙ w.asks in
    let committed : IsCommitted jr.runtime r task t.context.rdi t.context.rsi t.context.rdx =
      subst
        (λ (s : TaskSlot). IsCommitted jr.runtime r task s.context.rdi s.context.rsi s.context.rdx)
        same w.committed in
    let (reached, appended) =
      committed-recorded jr jr' r task t.context outcome o committed
        (ap (λ p. conclude_trap jr outcome (record_trap jr r task t.context p)) (sym asks) ∙ e) in
    record {
      written = subst (λ (s : Runtime). IsWrittenByCommit jr.runtime s task) (sym reached) w;
      appended =
          subst
            (λ (s : Runtime).
              append_reserved jr.journal
                (commit_event jr EffectEventKind.completed TrapStatus.ok s.broker.decision_epoch)
                false
              ≡ (jr'.journal, ok tt))
            (sym reached) appended;
    }

handle_recorded_trap-effect :
    (jr jr' : JournaledRuntime) (task : ℕ) (t : TaskSlot) (o : TrapOutcome)
    → slot jr.runtime task ≡ ok t
    → handle_recorded_trap jr task t.context (parse t.context.rax) ≡ (jr', ok o)
    → (jr'.runtime.effect ≡ jr.runtime.effect) ⊎ IsRecorded jr jr' task
unfolding handle_recorded_trap
handle_recorded_trap-effect jr jr' task t o found e =
    elim (Result-cases (handle_trap jr.runtime task).1) [
      | inr (x, bad) ↦ absurd (grind arith)
      | inl (outcome, good) ↦
          let r = (handle_trap jr.runtime task).0 in
          let v = record_trap jr r task t.context (parse t.context.rax) in
          let concluded : conclude_trap jr outcome v ≡ (jr', ok o) = grind arith in
          elim (handle_trap_lem jr.runtime task) [
            | inl kept ↦ inl (
                settled-effect jr jr' r outcome o v kept
                  (record_trap-IsSettled jr r task t.context (parse t.context.rax)) concluded)
            | inr written ↦ inr (commit-IsRecorded jr jr' task t o outcome found written concluded)
          ]
    ]

-- Whatever a task asks of the journaled runtime, a trap that does not fail leaves the effect as it was,
-- or the task committed it under an approval, and then the journal is the one before with the record
-- of that commit, of the request approved, in the place kept free for it.
pub handle_journaled_trap-IsRecorded :
    (jr jr' : JournaledRuntime) (task : ℕ) (o : TrapOutcome)
    → handle_journaled_trap jr task ≡ (jr', ok o)
    → (jr'.runtime.effect ≡ jr.runtime.effect) ⊎ IsRecorded jr jr' task
unfolding handle_journaled_trap
handle_journaled_trap-IsRecorded jr jr' task o e = elim (Result-cases (running_task jr.runtime)) [
  | inr (x, bad) ↦ absurd (grind arith)
  | inl (current, runs) ↦ elim (Bool-cases (current /= task)) [
    | inl other ↦ absurd (grind arith)
    | inr same ↦ elim (Result-cases (slot jr.runtime task)) [
      | inr (x, bad) ↦ absurd (grind arith)
      | inl (t, found) ↦ elim (Bool-cases (is_journal_read (parse t.context.rax))) [
        | inl reads ↦ inl (
            read-effect jr jr' task (read_operation (parse t.context.rax)) t.context o
              (grind arith))
        | inr writes ↦ handle_recorded_trap-effect jr jr' task t o found (grind arith)
      ]
    ]
  ]
]
