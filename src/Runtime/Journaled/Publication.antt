-- ===== src/Runtime/Journaled/Publication.antt =====
-- What the publication of the supervisor and of its journal leaves.
use makopa_os.Common.{
  ℕ, ◌≡◌, refl, sym, ◌∙◌, ap, subst, Option, none, List, [], ◌==◌, Result, ok, err, inl, inr, arith,
  Result-cases, Bool-cases, ok_injective, ◌>>=◌,
}
use makopa_os.Abi.{
  RuntimeError, publication_failure, capability_invariant, sender_task_id,
  object_type_effect_journal, right_read_effect_journal,
}
use makopa_os.Capabilities.Table.{install_object_building}
use makopa_os.Contexts.{TaskContextV1}
use makopa_os.Journal.{dead_journal, clear_dead, building_journal, effect_journal_object_generation}
use makopa_os.Runtime.State.{Runtime}
use makopa_os.Runtime.Construction.{
  with_table, fails_at, push_task, install_grants, supervisor_grants, unpublished_supervised,
}
use makopa_os.Runtime.Construction.Published.{
  IsWithdrawn, rollback_supervisor_publication-IsWithdrawn,
}
use makopa_os.Runtime.Journaled.{JournaledRuntime, validate, effect_journal_object_id}
use makopa_os.Runtime.Journaled.Lifecycle.{
  supervisor_journal_handle, Published, without_handle, withdraw, and_next, failing_as,
  push_and_check, publish_rest, finish_journaled, publish_handle, publish_journaled, made,
  new_journaled,
}

abbrev pub IsPublished : Published → Type 0
IsPublished (jr, ok u) = validate jr ≡ ok tt
IsPublished (jr, err e) = IsWithdrawn jr.runtime × (jr.journal ≡ dead_journal)

abbrev IsChecked : Published → Type 0
IsChecked (jr, ok u) = validate jr ≡ ok tt
IsChecked (jr, err e) = Unit

withdraw-IsWithdrawn :
    (jr : JournaledRuntime) (installed : List (ℕ × ℕ)) (handle : ℕ)
    → IsWithdrawn (withdraw jr installed handle).runtime
      × ((withdraw jr installed handle).journal ≡ dead_journal)
unfolding withdraw clear_dead
withdraw-IsWithdrawn jr installed handle =
    (rollback_supervisor_publication-IsWithdrawn _ installed, refl)

and_next-IsChecked :
    (p : Published) (k : JournaledRuntime → Published)
    → ((jr : JournaledRuntime) → IsChecked (k jr))
    → IsChecked (and_next p k)
and_next-IsChecked (jr, ok u) k h = h jr
and_next-IsChecked (jr, err e) k h = tt

outcome-IsChecked :
    (jr : JournaledRuntime) (v : Result RuntimeError (Unit {0}))
    → validate jr ≡ v
    → IsChecked (jr, failing_as publication_failure v)
outcome-IsChecked jr (ok u) h = h
outcome-IsChecked jr (err x) h = tt

failing-IsChecked :
    (jr : JournaledRuntime) (pushed : Result RuntimeError (Unit {0}))
    → IsChecked (jr, failing_as publication_failure (pushed >>= λ u. validate jr))
failing-IsChecked jr (err x) = tt
failing-IsChecked jr (ok u) = outcome-IsChecked jr (validate jr) refl

push_and_check-IsChecked : (jr : JournaledRuntime) → IsChecked (push_and_check jr)
push_and_check-IsChecked jr =
    failing-IsChecked (record jr { runtime = (push_task jr.runtime sender_task_id).0 })
      (push_task jr.runtime sender_task_id).1

publish_rest-IsChecked :
    (fault : Option ℕ) (jr : JournaledRuntime) → IsChecked (publish_rest fault jr)
unfolding publish_rest
publish_rest-IsChecked fault jr = and_next-IsChecked _ push_and_check push_and_check-IsChecked

finish_journaled-IsPublished :
    (installed : List (ℕ × ℕ)) (handle : ℕ) (p : Published)
    → IsChecked p
    → IsPublished (finish_journaled installed handle p)
finish_journaled-IsPublished installed handle (jr, ok u) h = h
finish_journaled-IsPublished installed handle (jr, err e) h =
    withdraw-IsWithdrawn jr installed handle

by_run : (p q : Published) → p ≡ q → IsPublished q → IsPublished p
by_run p q e i = subst (λ (x : Published). IsPublished x) (sym e) i

abbrev install_journal_handle : JournaledRuntime → Runtime × Result RuntimeError ℕ
install_journal_handle jr = with_table jr.runtime sender_task_id (λ t.
    install_object_building t object_type_effect_journal
      (record { id = effect_journal_object_id; generation = effect_journal_object_generation })
      right_read_effect_journal)

publish_handle-IsPublished :
    (fault : Option ℕ) (installed : List (ℕ × ℕ)) (jr : JournaledRuntime)
    → IsPublished (publish_handle fault installed jr)
unfolding publish_handle
publish_handle-IsPublished fault installed jr =
    let x = install_journal_handle jr in
    let jr' : JournaledRuntime = record jr { runtime = x.0 } in
    let p = publish_handle fault installed jr in
    elim (Bool-cases (fails_at fault 3)) [
      | inl fails ↦
          by_run p (withdraw jr installed 0, err publication_failure)
            (rw (fails, publish_handle) refl) (withdraw-IsWithdrawn jr installed 0)
      | inr goes_on ↦ elim (Result-cases x.1) [
        | inr (e, bad) ↦
            by_run p (withdraw jr' installed 0, err e) (rw (goes_on, bad, publish_handle) refl)
              (withdraw-IsWithdrawn jr' installed 0)
        | inl (handle, good) ↦ elim (Bool-cases (handle == supervisor_journal_handle)) [
          | inr wrong ↦
              by_run p (withdraw (without_handle jr' handle) installed 0, err capability_invariant)
                (rw (goes_on, good, wrong, publish_handle) refl)
                (withdraw-IsWithdrawn (without_handle jr' handle) installed 0)
          | inl right ↦
              by_run p (finish_journaled installed handle (publish_rest fault jr'))
                (rw (goes_on, good, right, publish_handle) refl)
                (finish_journaled-IsPublished installed handle (publish_rest fault jr')
                  (publish_rest-IsChecked fault jr'))
        ]
      ]
    ]

-- A publication of the supervisor's capabilities and of its journal either ends in a state that
-- validates, or, whichever step fails, in one in which no task runs, no handle, queue entry, broker or
-- effect is left, and the journal is dead.
pub publish_journaled-IsPublished :
    (jr : JournaledRuntime) (fault : Option ℕ) → IsPublished (publish_journaled jr fault)
unfolding publish_journaled
publish_journaled-IsPublished jr fault =
    let x = install_grants fault supervisor_grants jr.runtime [] in
    let jr' : JournaledRuntime = record jr { runtime = x.0 } in
    elim (Result-cases x.2) [
      | inr (e, bad) ↦
          by_run (publish_journaled jr fault) (withdraw jr' x.1 0, err e)
            (rw (bad, publish_journaled) refl) (withdraw-IsWithdrawn jr' x.1 0)
      | inl (u, good) ↦
          by_run (publish_journaled jr fault) (publish_handle fault x.1 jr')
            (rw (good, publish_journaled) refl) (publish_handle-IsPublished fault x.1 jr')
    ]

made-valid :
    (p : Published) (jr : JournaledRuntime) → IsPublished p → made p ≡ ok jr → validate jr ≡ ok tt
made-valid (j, ok u) jr i e = ap validate (sym (ok_injective e)) ∙ i
made-valid (j, err x) jr i e = absurd (cc)

pub new_journaled-valid :
    (s w : TaskContextV1) (jr : JournaledRuntime) → new_journaled s w ≡ ok jr → validate jr ≡ ok tt
unfolding new_journaled
new_journaled-valid s w jr e =
    let start : JournaledRuntime = record {
      runtime = unpublished_supervised s w;
      journal = building_journal;
    } in
    made-valid (publish_journaled start none) jr (publish_journaled-IsPublished start none)
      (ground arith)
