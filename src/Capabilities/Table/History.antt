-- ===== src/Capabilities/Table/History.antt =====
-- Handles over a table's whole life: the calls of the runtime on one table, in any order.
use makopa_os.Common.{
  ℕ, ◌<◌, ◌≡◌, ◌⊎◌, inl, inr, refl, true, false, none, some, List, [], ◌∷◌, arith, set, ok, err,
  Option-cases, Result-cases,
}
use makopa_os.Abi.{invalid_handle, object_type_endpoint, right_duplicate}
use makopa_os.Capabilities.Handle.{decode}
use makopa_os.Capabilities.Slots.{
  ObjectReference, CapabilityEntry, CapabilitySlot, is_available, position, slot_at, remove_entry,
  remove_if_occupied, is_occupied,
}
use makopa_os.Capabilities.Slots.Access.{
  SlotLe, SlotLe-set, SlotLe-remove_entry, SlotLe-remove_if_occupied, remove_entry_ends,
  slot_at-map, slot_at-set_self, occupied_inside,
}
use makopa_os.Capabilities.Table.{
  CapabilityTable, dead, allocate, install_object_building, publish, rollback_install,
  resolve_typed, duplicate, close, mark_closing, close_all, finish_dead, serves,
}

-- One call on a table with its arguments.
pub data Call : Type 0 where
  installs : ℕ → ObjectReference → ℕ → Call
  publishes : Call
  rolls_back : ℕ → Call
  duplicates : ℕ → ℕ → ℕ → ℕ → Call
  closes : ℕ → ℕ → ℕ → Call
  marks_closing : Call
  closes_all : Call
  finishes : Call

-- The table after the call, whether it succeeds or fails.
unfoldable pub step : CapabilityTable → Call → CapabilityTable
step t (installs object_type object rights) =
    (install_object_building t object_type object rights).0
step t publishes = (publish t).0
step t (rolls_back raw) = rollback_install t raw
step t (duplicates task_id task_generation source rights) =
    (duplicate t task_id task_generation source rights).0
step t (closes task_id task_generation raw) = (close t task_id task_generation raw).0
step t marks_closing = (mark_closing t).0
step t closes_all = (close_all t).0
step t finishes = (finish_dead t).0

unfoldable pub run : CapabilityTable → List Call → CapabilityTable
run t [] = t
run t (c ∷ cs) = run (step t c) cs

-- The state and the slots at which a handle for slot `i`, generation `k`, is past use.
abbrev pub IsSpent : CapabilityTable → ℕ → ℕ → Type 0
IsSpent t i k =
    (t.state ≡ dead) ⊎ (((slot_at t.slots i).retired ≡ true) ⊎ (k < (slot_at t.slots i).generation))

-- Writing a slot that has only moved forward keeps a handle spent.
set-IsSpent :
    (t : CapabilityTable) (j : ℕ) (s : CapabilitySlot) (i k : ℕ)
    → SlotLe (slot_at t.slots j) s
    → IsSpent t i k
    → IsSpent (record t { slots = set t.slots j s }) i k
set-IsSpent t j s i k le spent = ground (arith, SlotLe-set t.slots j i s le)

allocate-IsSpent :
    (t : CapabilityTable) (entry : CapabilityEntry) (i k : ℕ)
    → IsSpent t i k
    → IsSpent (allocate t entry).0 i k
unfolding allocate
allocate-IsSpent t entry i k spent = elim (Option-cases (position is_available t.slots)) [
  | inl e ↦ rw (e, allocate) spent
  | inr (j, e) ↦
      let written =
        set-IsSpent t j (record (slot_at t.slots j) { entry = some entry }) i k (ground arith)
          spent in
      ground (arith, written)
]

install-IsSpent :
    (t : CapabilityTable) (object_type : ℕ) (object : ObjectReference) (rights i k : ℕ)
    → IsSpent t i k
    → IsSpent (install_object_building t object_type object rights).0 i k
unfolding install_object_building
install-IsSpent t object_type object rights i k spent = ground (
  arith,
  allocate-IsSpent t
      (record {
        task_id = t.task_id;
        task_generation = t.task_generation;
        object_type = object_type;
        rights = rights;
        object = object;
      })
      i k,
)

duplicate-IsSpent :
    (t : CapabilityTable) (task_id task_generation source rights i k : ℕ)
    → IsSpent t i k
    → IsSpent (duplicate t task_id task_generation source rights).0 i k
unfolding duplicate
duplicate-IsSpent t task_id task_generation source rights i k spent =
    elim (Result-cases
      (resolve_typed t task_id task_generation source object_type_endpoint right_duplicate)) [
        | inl (entry, e) ↦ ground (arith, allocate-IsSpent t (record entry { rights = rights }) i k)
        | inr (status, e) ↦ rw (e, duplicate) spent
      ]

rollback_install-IsSpent :
    (t : CapabilityTable) (raw i k : ℕ) → IsSpent t i k → IsSpent (rollback_install t raw) i k
unfolding rollback_install
rollback_install-IsSpent t raw i k spent = elim (Option-cases (decode raw)) [
  | inl e ↦ rw (e, rollback_install) spent
  | inr ((j, g), e) ↦
      let written =
        set-IsSpent t j (record (slot_at t.slots j) { entry = none }) i k (ground arith) spent in
      ground (arith, written)
]

close-IsSpent :
    (t : CapabilityTable) (task_id task_generation raw i k : ℕ)
    → IsSpent t i k
    → IsSpent (close t task_id task_generation raw).0 i k
unfolding close
close-IsSpent t task_id task_generation raw i k spent = elim (Option-cases (decode raw)) [
  | inl e ↦ ground arith
  | inr ((j, g), e) ↦
      let written =
        set-IsSpent t j (remove_entry (slot_at t.slots j)) i k (SlotLe-remove_entry _) spent in
      ground (arith, written)
]

close_all-IsSpent : (t : CapabilityTable) (i k : ℕ) → IsSpent t i k → IsSpent (close_all t).0 i k
unfolding close_all
close_all-IsSpent t i k spent = ground (
  arith,
  slot_at-map remove_if_occupied t.slots i refl,
  SlotLe-remove_if_occupied (slot_at t.slots i),
)

-- What a successful close has found and written.
pub close-ok :
    (t t' : CapabilityTable) (task_id task_generation raw : ℕ)
    → close t task_id task_generation raw ≡ (t', ok tt)
    → (i k : ℕ) × (decode raw ≡ some (i, k))
      × (serves t task_id task_generation ≡ true)
      × ((slot_at t.slots i).retired ≡ false)
      × ((slot_at t.slots i).generation ≡ k)
      × (is_occupied (slot_at t.slots i) ≡ true)
      × (t' ≡ record t { slots = set t.slots i (remove_entry (slot_at t.slots i)) })
unfolding close
close-ok t t' task_id task_generation raw e = elim (Option-cases (decode raw)) [
  | inl none_ ↦ ground arith
  | inr ((i, k), d) ↦
      (i, k, d, ground arith, ground arith, ground arith, ground arith, ground arith)
]

step-IsSpent : (t : CapabilityTable) (c : Call) (i k : ℕ) → IsSpent t i k → IsSpent (step t c) i k
unfolding step publish mark_closing finish_dead
step-IsSpent t (installs object_type object rights) i k s =
    install-IsSpent t object_type object rights i k s
step-IsSpent t (rolls_back raw) i k s = rollback_install-IsSpent t raw i k s
step-IsSpent t (duplicates task_id task_generation source rights) i k s =
    duplicate-IsSpent t task_id task_generation source rights i k s
step-IsSpent t (closes task_id task_generation raw) i k s =
    close-IsSpent t task_id task_generation raw i k s
step-IsSpent t closes_all i k s = close_all-IsSpent t i k s
step-IsSpent t _ i k s = ground arith

run-IsSpent :
    (t : CapabilityTable) (cs : List Call) (i k : ℕ) → IsSpent t i k → IsSpent (run t cs) i k
unfolding run
run-IsSpent t [] i k s = s
run-IsSpent t (c ∷ cs) i k s = run-IsSpent (step t c) cs i k (step-IsSpent t c i k s)

spent_resolves_to_nothing :
    (t : CapabilityTable) (raw i k task_id task_generation object_type right : ℕ)
    → decode raw ≡ some (i, k)
    → IsSpent t i k
    → resolve_typed t task_id task_generation raw object_type right ≡ err invalid_handle
unfolding resolve_typed
spent_resolves_to_nothing t raw i k task_id task_generation object_type right e spent =
    rw e (ground arith)

spent_closes_nothing :
    (t : CapabilityTable) (raw i k task_id task_generation : ℕ)
    → decode raw ≡ some (i, k)
    → IsSpent t i k
    → close t task_id task_generation raw ≡ (t, err invalid_handle)
unfolding close
spent_closes_nothing t raw i k task_id task_generation e spent = rw e (ground arith)

-- A handle that has been closed is dead for good: whatever calls follow on the table, it resolves
-- for no task, object type or right, and it cannot be closed again.
pub closed_for_good :
    (t t' : CapabilityTable) (task_id task_generation raw : ℕ) (cs : List Call)
    → close t task_id task_generation raw ≡ (t', ok tt)
    → (some_task some_generation object_type right : ℕ)
    → (resolve_typed (run t' cs) some_task some_generation raw object_type right
        ≡ err invalid_handle)
      × (close (run t' cs) some_task some_generation raw ≡ (run t' cs, err invalid_handle))
closed_for_good t t' task_id task_generation raw cs e some_task some_generation object_type right =
    let (i, k, names, serving, unretired, at, held, shape) =
      close-ok t t' task_id task_generation raw e in
    let slot = slot_at t.slots i in
    let spent : IsSpent t' i k =
      rw (shape, slot_at-set_self t.slots i (remove_entry slot) (occupied_inside t.slots i held))
        (inr (ground (arith, remove_entry_ends slot))) in
    let still = run-IsSpent t' cs i k spent in
    (
      spent_resolves_to_nothing _ raw i k some_task some_generation object_type right names still,
      spent_closes_nothing _ raw i k some_task some_generation names still,
    )
