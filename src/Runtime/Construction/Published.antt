-- ===== src/Runtime/Construction/Published.antt =====
-- What a publication leaves, with and without a fault.
use makopa_os.Common.{
  ℕ, ◌≡◌, refl, Option, List, [], Result, ok, err, inl, inr, Result-cases, sym, subst,
}
use makopa_os.Abi.{TaskState, RuntimeError}
use makopa_os.Capabilities.Table.{dead_table}
use makopa_os.Contexts.{clear_dead}
use makopa_os.Runtime.Queue.{empty_queue}
use makopa_os.Runtime.State.{TaskSlot, Runtime, empty_manifest, dead_broker, empty_effect}
use makopa_os.Runtime.Validate.{validate}
use makopa_os.Runtime.Construction.{
  publish_initial, publish_supervisor, publish_initial_tables, publish_supervisor_table,
  rollback_publication, rollback_supervisor_publication, install_grants, initial_grants,
  supervisor_grants, finish_initial, finish_supervisor, and_then, check,
}

-- A task that holds nothing and cannot run.
pub record IsCleared (t : TaskSlot) : Type 0 where
  pub dead : t.state ≡ TaskState.dead
  pub generation : t.generation ≡ 0
  pub context : t.context ≡ clear_dead
  pub capabilities : t.capabilities ≡ dead_table

-- Nothing of the runtime is alive.
pub record IsWithdrawn (r : Runtime) : Type 0 where
  pub sender : IsCleared r.sender
  pub receiver : IsCleared r.receiver
  pub queue : r.queue ≡ empty_queue
  pub manifest : r.manifest ≡ empty_manifest
  pub broker : r.broker ≡ dead_broker
  pub effect : r.effect ≡ empty_effect

rollback_publication-IsWithdrawn :
    (r : Runtime) (installed : List (ℕ × ℕ)) → IsWithdrawn (rollback_publication r installed)
unfolding rollback_publication
rollback_publication-IsWithdrawn r installed = record {
  sender = record { dead = refl; generation = refl; context = refl; capabilities = refl };
  receiver = record { dead = refl; generation = refl; context = refl; capabilities = refl };
  queue = refl;
  manifest = refl;
  broker = refl;
  effect = refl;
}

pub rollback_supervisor_publication-IsWithdrawn :
    (r : Runtime) (installed : List (ℕ × ℕ))
    → IsWithdrawn (rollback_supervisor_publication r installed)
unfolding rollback_supervisor_publication
rollback_supervisor_publication-IsWithdrawn r installed = record {
  sender = record { dead = refl; generation = refl; context = refl; capabilities = refl };
  receiver = record { dead = refl; generation = refl; context = refl; capabilities = refl };
  queue = refl;
  manifest = refl;
  broker = refl;
  effect = refl;
}

-- The result of a publication.
abbrev pub IsPublished : Runtime × Result RuntimeError (Unit {0}) → Type 0
IsPublished (r, ok u) = validate r ≡ ok tt
IsPublished (r, err e) = IsWithdrawn r

check-valid :
    (p : Runtime × Result RuntimeError (Unit {0}))
    → (and_then p check).1 ≡ ok tt
    → validate (and_then p check).0 ≡ ok tt
check-valid (r, ok u) e = e
check-valid (r, err x) e = absurd (cc)

publish_initial_tables-valid :
    (fault : Option ℕ) (r : Runtime)
    → (publish_initial_tables fault r).1 ≡ ok tt
    → validate (publish_initial_tables fault r).0 ≡ ok tt
unfolding publish_initial_tables
publish_initial_tables-valid fault r e = check-valid _ e

publish_supervisor_table-valid :
    (fault : Option ℕ) (r : Runtime)
    → (publish_supervisor_table fault r).1 ≡ ok tt
    → validate (publish_supervisor_table fault r).0 ≡ ok tt
unfolding publish_supervisor_table
publish_supervisor_table-valid fault r e = check-valid _ e

by_run : (p q : Runtime × Result RuntimeError (Unit {0})) → p ≡ q → IsPublished q → IsPublished p
by_run p q e i = subst (λ (x : Runtime × Result RuntimeError (Unit {0})). IsPublished x) (sym e) i

finish_initial-IsPublished :
    (installed : List (ℕ × ℕ)) (p : Runtime × Result RuntimeError (Unit {0}))
    → (p.1 ≡ ok tt → validate p.0 ≡ ok tt)
    → IsPublished (finish_initial installed p)
finish_initial-IsPublished installed (r, ok u) h = h refl
finish_initial-IsPublished installed (r, err e) h = rollback_publication-IsWithdrawn r installed

finish_supervisor-IsPublished :
    (installed : List (ℕ × ℕ)) (p : Runtime × Result RuntimeError (Unit {0}))
    → (p.1 ≡ ok tt → validate p.0 ≡ ok tt)
    → IsPublished (finish_supervisor installed p)
finish_supervisor-IsPublished installed (r, ok u) h = h refl
finish_supervisor-IsPublished installed (r, err e) h =
    rollback_supervisor_publication-IsWithdrawn r installed

-- A publication of the first capabilities of the two tasks either ends in a runtime that validates,
-- or, whichever step fails, in one in which no task runs and no handle, queue entry or effect is left.
pub publish_initial-IsPublished :
    (r : Runtime) (fault : Option ℕ) → IsPublished (publish_initial r fault)
unfolding publish_initial
publish_initial-IsPublished r fault =
    let x = install_grants fault initial_grants r [] in
    let y = publish_initial_tables fault x.0 in
    elim (Result-cases x.2) [
      | inr (e, bad) ↦
          by_run (publish_initial r fault) (rollback_publication x.0 x.1, err e)
            (rw (bad, publish_initial) refl) (rollback_publication-IsWithdrawn x.0 x.1)
      | inl (u, good) ↦
          by_run (publish_initial r fault) (finish_initial x.1 y) (rw (good, publish_initial) refl)
            (finish_initial-IsPublished x.1 y (publish_initial_tables-valid fault x.0))
    ]

-- A publication of the supervisor's capabilities either ends in a runtime that validates, or,
-- whichever step fails, in one in which no task runs and no handle, queue entry, broker or effect is
-- left.
pub publish_supervisor-IsPublished :
    (r : Runtime) (fault : Option ℕ) → IsPublished (publish_supervisor r fault)
unfolding publish_supervisor
publish_supervisor-IsPublished r fault =
    let x = install_grants fault supervisor_grants r [] in
    let y = publish_supervisor_table fault x.0 in
    elim (Result-cases x.2) [
      | inr (e, bad) ↦
          by_run (publish_supervisor r fault) (rollback_supervisor_publication x.0 x.1, err e)
            (rw (bad, publish_supervisor) refl)
            (rollback_supervisor_publication-IsWithdrawn x.0 x.1)
      | inl (u, good) ↦
          by_run (publish_supervisor r fault) (finish_supervisor x.1 y)
            (rw (good, publish_supervisor) refl)
            (finish_supervisor-IsPublished x.1 y (publish_supervisor_table-valid fault x.0))
    ]
