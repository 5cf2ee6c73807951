-- ===== src/Capabilities/Table.antt =====
-- crates/task-runtime/src/lib.rs, `CapabilityTable`. A method that takes `&mut self` returns the
-- new table beside its result.
pub mod Frame
pub mod History
pub mod Validity
pub mod Delegation
use makopa_os.Common.{
  ℕ, zero, suc, ◌+◌, ◌≡◌, ◌||◌, ◌&&◌, not, Bool, true, false, Option, none, some, List, [], ◌∷◌,
  map, arith, ltb, ◌==◌, ◌/=◌, if◌then◌else◌, bit_and, not_u64, set, replicate, any, all, count,
  Result, ok, err, ◌>>=◌, ◌>>◌, reject_if, ok_or,
}
use makopa_os.Abi.{
  TrapStatus, invalid_handle, wrong_object, rights_denied, invalid_rights, handle_table_full,
  generation_exhausted, RuntimeError, wrong_state, capability_invariant, capability_slot_count,
  capability_generation_max, object_type_endpoint, right_duplicate, endpoint_id,
  endpoint_generation,
}
use makopa_os.Capabilities.Handle.{from_parts, decode}
use makopa_os.Capabilities.Rights.{valid_rights}
use makopa_os.Capabilities.Slots.{
  ObjectReference, CapabilityEntry, CapabilitySlot, empty_slot, is_some, is_occupied, is_available,
  is_empty_slot, position, slot_at, remove_entry, remove_if_occupied,
}

pub data CapabilityTableState : Type 0 where
  building live closing dead : CapabilityTableState

-- `#[repr(u8)]`: `==` compares the discriminants.
abbrev pub state_code : CapabilityTableState → ℕ
state_code building = 0
state_code live = 1
state_code closing = 2
state_code dead = 3

infix 50 ◌is◌ ◌is_not◌
abbrev pub ◌is◌ : CapabilityTableState → CapabilityTableState → Bool
s is t = state_code s == state_code t

abbrev pub ◌is_not◌ : CapabilityTableState → CapabilityTableState → Bool
s is_not t = state_code s /= state_code t

pub record CapabilityTable : Type 0 where
  pub task_id : ℕ
  pub task_generation : ℕ
  pub state : CapabilityTableState
  pub slots : List CapabilitySlot

pub record CapabilityTableSnapshot : Type 0 where
  pub task_id : ℕ
  pub task_generation : ℕ
  pub state : CapabilityTableState
  pub live_slots : ℕ
  pub retired_slots : ℕ

abbrev pub empty_slots : List CapabilitySlot
empty_slots = replicate capability_slot_count empty_slot

-- `CapabilityTable::building`.
unfoldable pub building_table : ℕ → ℕ → CapabilityTable
building_table task_id task_generation = record {
  task_id = task_id;
  task_generation = task_generation;
  state = building;
  slots = empty_slots;
}

-- `CapabilityTable::dead`.
abbrev pub dead_table : CapabilityTable
dead_table = record { task_id = 0; task_generation = 0; state = dead; slots = empty_slots }

unfoldable pub snapshot : CapabilityTable → CapabilityTableSnapshot
snapshot t = record {
  task_id = t.task_id;
  task_generation = t.task_generation;
  state = t.state;
  live_slots = count is_occupied t.slots;
  retired_slots = count (λ s. s.retired) t.slots;
}

unfoldable pub available_slots : CapabilityTable → ℕ
available_slots t = count is_available t.slots

unfoldable pub allocate : CapabilityTable → CapabilityEntry → CapabilityTable × Result TrapStatus ℕ
allocate t entry = elim (position is_available t.slots) [
  | none ↦ (t, err (if all is_occupied t.slots then handle_table_full else generation_exhausted))
  | some index ↦
      let slot = slot_at t.slots index in
      elim (from_parts index slot.generation) [
        | none ↦ (t, err generation_exhausted)
        | some handle ↦
            (record t { slots = set t.slots index (record slot { entry = some entry }) }, ok handle)
      ]
]

-- `.map_err(|_| RuntimeError::CapabilityInvariant)`.
abbrev pub as_capability_invariant :
    CapabilityTable × Result TrapStatus ℕ → CapabilityTable × Result RuntimeError ℕ
as_capability_invariant (t, ok handle) = (t, ok handle)
as_capability_invariant (t, err status) = (t, err capability_invariant)

unfoldable pub install_object_building :
    CapabilityTable → ℕ → ObjectReference → ℕ → CapabilityTable × Result RuntimeError ℕ
install_object_building t object_type object rights =
    if t.state is_not building
      || not (valid_rights object_type rights)
      || t.task_id == 0
      || t.task_generation == 0
      || object.id == 0
      || object.generation == 0
    then (t, err capability_invariant)
    else as_capability_invariant (
        allocate t (record {
          task_id = t.task_id;
          task_generation = t.task_generation;
          object_type = object_type;
          rights = rights;
          object = object;
        }))

abbrev pub endpoint_object : ObjectReference
endpoint_object = record { id = endpoint_id; generation = endpoint_generation }

unfoldable pub install_building : CapabilityTable → ℕ → CapabilityTable × Result RuntimeError ℕ
unfolding install_object_building
install_building t rights = install_object_building t object_type_endpoint endpoint_object rights

unfoldable pub publish : CapabilityTable → CapabilityTable × Result RuntimeError (Unit {0})
publish t =
    if t.state is_not building
    then (t, err capability_invariant)
    else (record t { state = live }, ok tt)

unfoldable pub rollback_install : CapabilityTable → ℕ → CapabilityTable
rollback_install t raw = elim (decode raw) [
  | none ↦ t
  | some (index, generation) ↦
      let slot = slot_at t.slots index in
      if slot.generation == generation
      then record t { slots = set t.slots index (record slot { entry = none }) }
      else t
]

-- The first guard of `resolve_typed` and of `close`.
abbrev pub serves : CapabilityTable → ℕ → ℕ → Bool
serves t task_id task_generation =
    not (t.state is_not live || t.task_id /= task_id || t.task_generation /= task_generation)

unfoldable pub resolve_typed :
    CapabilityTable → ℕ → ℕ → ℕ → ℕ → ℕ → Result TrapStatus CapabilityEntry
resolve_typed t task_id task_generation raw object_type required_right = do
  reject_if (not (serves t task_id task_generation)) invalid_handle
  (index, generation) ← ok_or (decode raw) invalid_handle
  let slot = slot_at t.slots index
  reject_if (slot.retired || slot.generation /= generation) invalid_handle
  entry ← ok_or slot.entry invalid_handle
  reject_if (entry.task_id /= task_id || entry.task_generation /= task_generation) invalid_handle
  reject_if (entry.object_type /= object_type) wrong_object
  reject_if (bit_and entry.rights required_right == 0) rights_denied
  ok entry

unfoldable pub resolve : CapabilityTable → ℕ → ℕ → ℕ → ℕ → Result TrapStatus CapabilityEntry
unfolding resolve_typed
resolve t task_id task_generation raw required_right =
    resolve_typed t task_id task_generation raw object_type_endpoint required_right

unfoldable pub duplicate : CapabilityTable → ℕ → ℕ → ℕ → ℕ → CapabilityTable × Result TrapStatus ℕ
duplicate t task_id task_generation source requested_rights =
    elim (resolve_typed t task_id task_generation source object_type_endpoint right_duplicate) [
      | err status ↦ (t, err status)
      | ok entry ↦
          if not (valid_rights object_type_endpoint requested_rights)
            || bit_and requested_rights (not_u64 entry.rights) /= 0
          then (t, err invalid_rights)
          else allocate t (record entry { rights = requested_rights })
    ]

unfoldable pub close : CapabilityTable → ℕ → ℕ → ℕ → CapabilityTable × Result TrapStatus (Unit {0})
close t task_id task_generation raw =
    if not (serves t task_id task_generation) then (t, err invalid_handle) else elim (decode raw) [
      | none ↦ (t, err invalid_handle)
      | some (index, generation) ↦
          let slot = slot_at t.slots index in
          if slot.retired || slot.generation /= generation || not (is_occupied slot)
          then (t, err invalid_handle)
          else (record t { slots = set t.slots index (remove_entry slot) }, ok tt)
    ]

unfoldable pub mark_closing : CapabilityTable → CapabilityTable × Result RuntimeError (Unit {0})
mark_closing t =
    if t.state is_not live then (t, err wrong_state) else (record t { state = closing }, ok tt)

unfoldable pub close_all : CapabilityTable → CapabilityTable × Result RuntimeError (Unit {0})
close_all t =
    if t.state is_not closing
    then (t, err wrong_state)
    else let t' : CapabilityTable = record t { slots = map remove_if_occupied t.slots } in
      if any is_occupied t'.slots then (t', err capability_invariant) else (t', ok tt)

unfoldable pub begin_closing : CapabilityTable → CapabilityTable × Result RuntimeError (Unit {0})
unfolding mark_closing close_all
begin_closing t =
    let (t', marked) = mark_closing t in elim marked [ err e ↦ (t', err e) | ok _ ↦ close_all t' ]

unfoldable pub finish_dead : CapabilityTable → CapabilityTable × Result RuntimeError (Unit {0})
finish_dead t =
    if t.state is_not closing || any is_occupied t.slots
    then (t, err wrong_state)
    else (dead_table, ok tt)

-- The last check of `validate` on a slot, for a slot with an entry.
abbrev pub entry_fits : ℕ → ℕ → Option CapabilityEntry → Bool
entry_fits task_id task_generation none = true
entry_fits task_id task_generation (some entry) = not (
    entry.task_id /= task_id
    || entry.task_generation /= task_generation
    || entry.object_type == 0
    || not (valid_rights entry.object_type entry.rights)
    || entry.object.id == 0
    || entry.object.generation == 0)

-- The body of the loop of `validate`.
abbrev pub slot_fits : ℕ → ℕ → CapabilitySlot → Bool
slot_fits task_id task_generation s =
    not (s.generation == 0 || ltb capability_generation_max s.generation)
    && not (s.retired && is_occupied s)
    && entry_fits task_id task_generation s.entry

unfoldable pub validate : CapabilityTable → Result RuntimeError (Unit {0})
validate t =
    if t.state is dead
    then if t.task_id /= 0 || t.task_generation /= 0 || not (all is_empty_slot t.slots)
      then err capability_invariant
      else ok tt
    else if t.task_id == 0 || t.task_generation == 0
    then err capability_invariant
    else if t.state is closing && any is_occupied t.slots
    then err capability_invariant
    else if all (slot_fits t.task_id t.task_generation) t.slots
    then ok tt
    else err capability_invariant
