-- ===== src/Runtime/Journaled/Lifecycle.antt =====
-- `JournaledRuntime`: its publication, the teardown of a task, and the end of the journal.
use makopa_os.Common.{
  ℕ, ◌||◌, not, Bool, true, false, Option, none, some, List, [], ◌==◌, ◌/=◌, if◌then◌else◌, Result,
  ok, err, ◌>>=◌, ◌>>◌, reject_if, checked_add, is_err,
}
use makopa_os.Abi.{
  exited, RuntimeError, wrong_state, invalid_task, invalid_generation, journal_invariant,
  publication_failure, capability_invariant, TrapStatus, approval_denied, approval_expired,
  sender_task_id, receiver_task_id, object_type_effect_journal, object_type_approval_broker,
  right_read_effect_journal,
}
use makopa_os.Capabilities.Table.{install_object_building, publish, rollback_install}
use makopa_os.Contexts.{TaskContextV1}
use makopa_os.Journal.Records.{EffectEventKind, event}
use makopa_os.Journal.{
  building_journal, append_reserved, seal, clear_dead, effect_journal_object_generation, ◌is◌,
}
use makopa_os.Journal
use makopa_os.Manifest.{expected_workload_generation}
use makopa_os.Runtime.State.{pending, approved, empty, ApprovalBroker, ◌in_state◌, ◌in_phase◌, slot}
use makopa_os.Runtime.Shapes.{expected_supervisor_generation, all_dead}
use makopa_os.Runtime.Construction.{
  unpublished_supervised, install_grants, supervisor_grants, with_table, push_task, fails_at,
  rollback_supervisor_publication,
}
use makopa_os.Runtime.Teardown.{begin_teardown, complete_teardown}
use makopa_os.Runtime.Journaled.{JournaledRuntime, validate, effect_journal_object_id}

-- `INITIAL_CAPABILITY_HANDLE + 3`: generation 1 of the slot 3.
abbrev pub supervisor_journal_handle : ℕ
supervisor_journal_handle = 19

abbrev pub Published : Type 0
Published = JournaledRuntime × Result RuntimeError (Unit {0})

abbrev pub without_handle : JournaledRuntime → ℕ → JournaledRuntime
without_handle jr handle = record jr {
  runtime =
      (with_table {A = Unit {0}} jr.runtime sender_task_id
        (λ t. (rollback_install t handle, ok tt))).0;
}

-- `rollback_publication`.
unfoldable pub withdraw : JournaledRuntime → List (ℕ × ℕ) → ℕ → JournaledRuntime
unfolding with_table rollback_supervisor_publication
withdraw jr installed journal_handle =
    let jr₁ = if journal_handle /= 0 then without_handle jr journal_handle else jr in
    record {
      runtime = rollback_supervisor_publication jr₁.runtime installed;
      journal = clear_dead jr₁.journal;
    }

-- A step of the publication after the steps that have succeeded.
abbrev pub and_next : Published → (JournaledRuntime → Published) → Published
and_next (jr, ok u) k = k jr
and_next (jr, err e) k = (jr, err e)

abbrev pub fail_when : Bool → JournaledRuntime → Published
fail_when true jr = (jr, err publication_failure)
fail_when false jr = (jr, ok tt)

-- `is_err()` with an error of the caller's own.
abbrev pub failing_as :
    {E : Type 0} → RuntimeError → Result E (Unit {0}) → Result RuntimeError (Unit {0})
failing_as error (ok u) = ok tt
failing_as error (err e) = err error

abbrev pub publish_journal : JournaledRuntime → Published
publish_journal jr =
    let (j, result) = Journal.publish jr.journal in
    (record jr { journal = j }, failing_as journal_invariant result)

abbrev pub publish_table : JournaledRuntime → Published
publish_table jr =
    let (r, result) = with_table jr.runtime sender_task_id publish in
    (record jr { runtime = r }, failing_as capability_invariant result)

abbrev pub open_broker : JournaledRuntime → JournaledRuntime
open_broker jr = record jr {
  runtime = record jr.runtime { broker = record jr.runtime.broker { state = empty } };
}

abbrev pub push_and_check : JournaledRuntime → Published
push_and_check jr =
    let (r, pushed) = push_task jr.runtime sender_task_id in
    let jr' : JournaledRuntime = record jr { runtime = r } in
    (jr', failing_as publication_failure (pushed >>= λ u. validate jr'))

-- The steps after the installation of the handle for the journal.
unfoldable pub publish_rest : Option ℕ → JournaledRuntime → Published
unfolding with_table push_task validate
publish_rest fault jr =
    and_next
      (and_next
        (and_next
          (and_next (and_next (fail_when (fails_at fault 4) jr) publish_journal)
            (λ k. fail_when (fails_at fault 5) k))
          publish_table)
        (λ k. fail_when (fails_at fault 6) (open_broker k)))
      push_and_check

abbrev pub finish_journaled : List (ℕ × ℕ) → ℕ → Published → Published
finish_journaled installed handle (jr, ok u) = (jr, ok tt)
finish_journaled installed handle (jr, err e) = (withdraw jr installed handle, err e)

unfoldable pub publish_handle : Option ℕ → List (ℕ × ℕ) → JournaledRuntime → Published
unfolding with_table withdraw publish_rest
publish_handle fault installed jr =
    if fails_at fault 3
    then (withdraw jr installed 0, err publication_failure)
    else (let (r, result) = with_table jr.runtime sender_task_id (λ t.
          install_object_building t object_type_effect_journal
            (record {
              id = effect_journal_object_id;
              generation = effect_journal_object_generation;
            })
            right_read_effect_journal) in
        let jr' : JournaledRuntime = record jr { runtime = r } in
        elim result [
          | err e ↦ (withdraw jr' installed 0, err e)
          | ok handle ↦
              if handle == supervisor_journal_handle
              then finish_journaled installed handle (publish_rest fault jr')
              else (withdraw (without_handle jr' handle) installed 0, err capability_invariant)
        ])

-- `JournaledRuntime::publish_supervisor`.
unfoldable pub publish_journaled : JournaledRuntime → Option ℕ → Published
unfolding install_grants publish_handle withdraw
publish_journaled jr fault =
    let (r, installed, granted) = install_grants fault supervisor_grants jr.runtime [] in
    let jr' : JournaledRuntime = record jr { runtime = r } in
    elim granted [
      | err e ↦ (withdraw jr' installed 0, err e)
      | ok u ↦ publish_handle fault installed jr'
    ]

abbrev pub made : Published → Result RuntimeError JournaledRuntime
made (jr, ok u) = ok jr
made (jr, err e) = err e

-- `JournaledRuntime::new_supervised`.
unfoldable pub new_journaled : TaskContextV1 → TaskContextV1 → Result RuntimeError JournaledRuntime
unfolding publish_journaled unpublished_supervised building_journal
new_journaled supervisor workload = do
  reject_if (supervisor.task_id /= sender_task_id || workload.task_id /= receiver_task_id)
      invalid_task
  reject_if
      (supervisor.generation /= expected_supervisor_generation
        || workload.generation /= expected_workload_generation)
      invalid_generation
  made (
      publish_journaled
        (record {
          runtime = unpublished_supervised supervisor workload;
          journal = building_journal;
        })
        none)

-- A step of a teardown; an error carries the state that it leaves.
abbrev pub Step : Type 0
Step = Result (JournaledRuntime × RuntimeError) JournaledRuntime

abbrev pub terminal_event : ApprovalBroker → Option (EffectEventKind × TrapStatus × Bool)
terminal_event b =
    if b in_phase pending
    then some (EffectEventKind.denied, approval_denied, true)
    else if b in_phase approved
    then some (EffectEventKind.expired, approval_expired, false)
    else none

abbrev pub at_epoch : JournaledRuntime → ℕ → JournaledRuntime
at_epoch jr epoch = record jr {
  runtime = record jr.runtime { broker = record jr.runtime.broker { decision_epoch = epoch } };
}

-- The record that ends a request whose task is gone.
unfoldable pub record_end : JournaledRuntime → Step
record_end jr =
    let b = jr.runtime.broker in
    if not b.request_present then ok jr else elim (checked_add b.decision_epoch 1) [
      | none ↦ err (jr, journal_invariant)
      | some epoch ↦ elim (terminal_event b) [
        | none ↦ err (at_epoch jr epoch, journal_invariant)
        | some (kind, status, release_unused) ↦
            let (journal, appended) =
              append_reserved jr.journal
                (event kind status epoch 0 0 b.request object_type_approval_broker 0)
                release_unused in
            elim appended [
              | err e ↦ err (jr, journal_invariant)
              | ok u ↦ ok (record (at_epoch jr epoch) { journal = journal })
            ]
      ]
    ]

abbrev pub seal_journal : JournaledRuntime → JournaledRuntime → Step
seal_journal before jr =
    let (journal, sealed) = seal jr.journal in
    elim sealed [
      | err e ↦ err (before, journal_invariant)
      | ok u ↦ ok (record jr { journal = journal })
    ]

-- `JournaledRuntime::begin_teardown`.
unfoldable pub begin_journaled_teardown : JournaledRuntime → ℕ → Step
unfolding record_end slot validate
begin_journaled_teardown jr task = elim (slot jr.runtime task) [
  | err e ↦ err (jr, e)
  | ok t ↦ do
    reject_if (not (t in_state exited)) (jr, wrong_state)
    jr₁ ← (if jr.journal.state is Journal.live then record_end jr >>= seal_journal jr else ok jr)
    jr₂ ← elim (begin_teardown jr₁.runtime task) [
      | err e ↦ err (jr, e)
      | ok r ↦ ok (record jr₁ { runtime = r })
    ]
    reject_if (is_err (validate jr₂)) (jr, journal_invariant)
    ok jr₂
]

-- `JournaledRuntime::complete_teardown`.
unfoldable pub complete_journaled_teardown :
    JournaledRuntime → ℕ → JournaledRuntime × Result RuntimeError (Option ℕ)
unfolding validate
complete_journaled_teardown jr task = elim (complete_teardown jr.runtime task) [
  | err e ↦ (jr, err e)
  | ok (r, next) ↦
      let jr' : JournaledRuntime = record jr { runtime = r } in
      if is_err (validate jr') then (jr, err journal_invariant) else (jr', ok next)
]

unfoldable pub finish_reclamation : JournaledRuntime → Published
unfolding validate clear_dead
finish_reclamation jr =
    if not (all_dead jr.runtime)
      || not (jr.journal.state is Journal.sealed)
      || jr.journal.reserved_record_count /= 0
      || is_err (Journal.validate jr.journal)
    then (jr, err journal_invariant)
    else let jr' : JournaledRuntime = record jr { journal = clear_dead jr.journal } in
      if is_err (validate jr') then (jr, err journal_invariant) else (jr', ok tt)
