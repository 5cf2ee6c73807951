-- ===== src/Capabilities/Table/Validity.antt =====
-- `CapabilityTable::validate` over a table's life.
use makopa_os.Common.{
  ℕ, ◌+◌, ◌≡◌, ◌≢◌, inl, inr, refl, true, false, none, some, List, [], ◌∷◌, arith, bit_and, set,
  length, all, any, count, ok, Option-cases, Bool-cases, Result-cases,
}
use makopa_os.Abi.{object_type_endpoint, right_duplicate}
use makopa_os.Capabilities.Handle.{decode}
use makopa_os.Capabilities.Rights.{valid_rights}
use makopa_os.Capabilities.Slots.{
  ObjectReference, CapabilityEntry, CapabilitySlot, is_occupied, is_available, is_empty_slot,
  position, slot_at, remove_entry, remove_if_occupied,
}
use makopa_os.Capabilities.Slots.Access.{position-some}
use makopa_os.Capabilities.Slots.Checks.{
  all-set, all-slot_at, all-map, any_occupied-set, any_occupied-map,
}
use makopa_os.Capabilities.Table.{
  CapabilityTable, live, dead, closing, allocate, install_object_building, publish,
  rollback_install, resolve_typed, duplicate, close, close_all, begin_closing, finish_dead,
  entry_fits, slot_fits, validate,
}
use makopa_os.Capabilities.Table.{snapshot, available_slots}
use makopa_os.Capabilities.Table.History.{
  Call, installs, publishes, rolls_back, duplicates, closes, marks_closing, closes_all, finishes,
  step,
}

slot_fits-remove_entry :
    (a g : ℕ) (s : CapabilitySlot) → slot_fits a g s ≡ true → slot_fits a g (remove_entry s) ≡ true
unfolding remove_entry
slot_fits-remove_entry a g s h = ground arith

slot_fits-remove_if_occupied :
    (a g : ℕ) (s : CapabilitySlot)
    → slot_fits a g s ≡ true
    → slot_fits a g (remove_if_occupied s) ≡ true
slot_fits-remove_if_occupied a g s h = ground (arith, slot_fits-remove_entry a g s)

set_valid :
    (t : CapabilityTable) (i : ℕ) (s : CapabilitySlot)
    → t.state ≢ dead
    → t.state ≢ closing
    → validate t ≡ ok tt
    → slot_fits t.task_id t.task_generation s ≡ true
    → validate (record t { slots = set t.slots i s }) ≡ ok tt
unfolding validate
set_valid t i s not_dead not_closing v h =
    ground (arith, all-set (slot_fits t.task_id t.task_generation) t.slots i s)

slot_at_fits :
    (t : CapabilityTable) (i : ℕ)
    → t.state ≢ dead
    → validate t ≡ ok tt
    → slot_fits t.task_id t.task_generation (slot_at t.slots i) ≡ true
unfolding validate
slot_at_fits t i not_dead v =
    ground (arith, all-slot_at (slot_fits t.task_id t.task_generation) t.slots i)

-- An entry that resolves is of the table's task, and its table is live.
resolved_fits :
    (t : CapabilityTable) (task_id task_generation raw object_type right : ℕ)
    (entry : CapabilityEntry)
    → resolve_typed t task_id task_generation raw object_type right ≡ ok entry
    → validate t ≡ ok tt
    → (t.state ≡ live)
      × (entry_fits t.task_id t.task_generation (some entry) ≡ true)
      × (entry.object_type ≡ object_type)
      × (bit_and entry.rights right ≢ 0)
unfolding resolve_typed
resolved_fits t task_id task_generation raw object_type right entry e v =
    elim (Option-cases (decode raw)) [
      | inl d ↦ absurd (ground arith)
      | inr ((i, k), d) ↦ ground (arith, slot_at_fits t i)
    ]

valid_rights_typed :
    (object_type rights : ℕ) → valid_rights object_type rights ≡ true → object_type ≢ 0
unfolding valid_rights
valid_rights_typed object_type rights h = ground arith

allocate_valid :
    (t : CapabilityTable) (entry : CapabilityEntry)
    → t.state ≢ dead
    → t.state ≢ closing
    → validate t ≡ ok tt
    → entry_fits t.task_id t.task_generation (some entry) ≡ true
    → validate (allocate t entry).0 ≡ ok tt
unfolding allocate
allocate_valid t entry not_dead not_closing v h =
    elim (Option-cases (position is_available t.slots)) [
      | inl e ↦ rw (e, allocate) v
      | inr (i, e) ↦
          let s = slot_at t.slots i in
          let old = slot_at_fits t i not_dead v in
          let written =
            set_valid t i (record s { entry = some entry }) not_dead not_closing v
              (ground (arith, position-some is_available t.slots i e)) in
          ground (arith, written)
    ]

install_valid :
    (t : CapabilityTable) (object_type : ℕ) (object : ObjectReference) (rights : ℕ)
    → validate t ≡ ok tt
    → validate (install_object_building t object_type object rights).0 ≡ ok tt
unfolding install_object_building
install_valid t object_type object rights v = elim (Bool-cases (valid_rights object_type rights)) [
  | inl granted ↦ ground (
    arith,
    valid_rights_typed object_type rights,
    allocate_valid t (record {
      task_id = t.task_id;
      task_generation = t.task_generation;
      object_type = object_type;
      rights = rights;
      object = object;
    }),
  )
  | inr refused ↦ ground (arith)
]

duplicate_valid :
    (t : CapabilityTable) (task_id task_generation source rights : ℕ)
    → validate t ≡ ok tt
    → validate (duplicate t task_id task_generation source rights).0 ≡ ok tt
unfolding duplicate
duplicate_valid t task_id task_generation source rights v =
    elim (Result-cases
      (resolve_typed t task_id task_generation source object_type_endpoint right_duplicate)) [
        | inl (entry, e) ↦
            let found =
              resolved_fits t task_id task_generation source object_type_endpoint right_duplicate
                entry e v in
            ground (arith, allocate_valid t (record entry { rights = rights }))
        | inr (status, e) ↦ rw (e, duplicate) v
      ]

rollback_install_valid :
    (t : CapabilityTable) (raw : ℕ) → validate t ≡ ok tt → validate (rollback_install t raw) ≡ ok tt
unfolding rollback_install validate
rollback_install_valid t raw v = elim (Option-cases (decode raw)) [
  | inl e ↦ rw (e, rollback_install) v
  | inr ((i, g), e) ↦
      let s = slot_at t.slots i in
      ground (
        arith,
        all-slot_at (slot_fits t.task_id t.task_generation) t.slots i,
        all-slot_at is_empty_slot t.slots i,
        all-set (slot_fits t.task_id t.task_generation) t.slots i (record s { entry = none }),
        all-set is_empty_slot t.slots i (record s { entry = none }),
        any_occupied-set t.slots i (record s { entry = none }),
      )
]

close_valid :
    (t : CapabilityTable) (task_id task_generation raw : ℕ)
    → validate t ≡ ok tt
    → validate (close t task_id task_generation raw).0 ≡ ok tt
unfolding close
close_valid t task_id task_generation raw v = elim (Option-cases (decode raw)) [
  | inl e ↦ ground arith
  | inr ((i, g), e) ↦
      let s = slot_at t.slots i in
      ground (
        arith,
        slot_at_fits t i,
        slot_fits-remove_entry t.task_id t.task_generation s,
        set_valid t i (remove_entry s),
      )
]

close_all_valid : (t : CapabilityTable) → validate t ≡ ok tt → validate (close_all t).0 ≡ ok tt
unfolding close_all validate
close_all_valid t v = ground (
  arith,
  any_occupied-map t.slots,
  all-map (slot_fits t.task_id t.task_generation) remove_if_occupied t.slots
      (slot_fits-remove_if_occupied t.task_id t.task_generation),
)

-- A table that validates still validates after any call but `mark_closing`, whether the call
-- succeeds or fails.
pub step_valid :
    (t : CapabilityTable) (c : Call)
    → c ≢ marks_closing
    → validate t ≡ ok tt
    → validate (step t c) ≡ ok tt
unfolding step validate publish finish_dead
step_valid t (installs object_type object rights) n v = install_valid t object_type object rights v
step_valid t (rolls_back raw) n v = rollback_install_valid t raw v
step_valid t (duplicates task_id task_generation source rights) n v =
    duplicate_valid t task_id task_generation source rights v
step_valid t (closes task_id task_generation raw) n v = close_valid t task_id task_generation raw v
step_valid t marks_closing n v = absurd (n refl)
step_valid t publishes n v = ground arith
step_valid t closes_all n v = close_all_valid t v
step_valid t finishes n v = ground arith

-- Closing a valid live table succeeds, keeps it valid, and leaves no entry in any slot.
pub begin_closing_lem :
    (t : CapabilityTable)
    → validate t ≡ ok tt
    → t.state ≡ live
    → let (t', result) = begin_closing t in
      (result ≡ ok tt)
      × (t'.state ≡ closing)
      × (any is_occupied t'.slots ≡ false)
      × (validate t' ≡ ok tt)
unfolding begin_closing validate
begin_closing_lem t v l = ground (
  arith,
  any_occupied-map t.slots,
  all-map (slot_fits t.task_id t.task_generation) remove_if_occupied t.slots
      (slot_fits-remove_if_occupied t.task_id t.task_generation),
)

counts_add_up :
    (a g : ℕ) (slots : List CapabilitySlot)
    → all (slot_fits a g) slots ≡ true
    → count is_available slots + count is_occupied slots + count (λ s. s.retired) slots
      ≡ length slots
counts_add_up a g [] h = omega arith
counts_add_up a g (s ∷ slots) h = ground (arith, counts_add_up a g slots)

-- In a valid table that is not dead every slot is counted once: as available, as live or as
-- retired.
pub snapshot_accounts :
    (t : CapabilityTable)
    → validate t ≡ ok tt
    → t.state ≢ dead
    → available_slots t + (snapshot t).live_slots + (snapshot t).retired_slots ≡ length t.slots
unfolding validate available_slots snapshot
snapshot_accounts t v n = ground (arith, counts_add_up t.task_id t.task_generation t.slots)
