-- ===== src/Capabilities/Slots.antt =====
-- crates/task-runtime/src/lib.rs: `ObjectReference`, `CapabilityEntry`, `CapabilitySlot` and the
-- walks over a table's slot array.
pub mod Access
pub mod Checks
use makopa_os.Common.{
  ℕ, zero, suc, ◌+◌, ◌≡◌, ◌||◌, ◌&&◌, not, Bool, true, false, Option, none, some, List, [], ◌∷◌,
  arith, ◌==◌, if◌then◌else◌, get_or, count, map,
}
use mathlib.Core.Option
use makopa_os.Abi.{capability_generation_max}

pub record ObjectReference : Type 0 where
  pub id : ℕ
  pub generation : ℕ

pub record CapabilityEntry : Type 0 where
  pub task_id : ℕ
  pub task_generation : ℕ
  pub object_type : ℕ
  pub rights : ℕ
  pub object : ObjectReference

pub record CapabilitySlot : Type 0 where
  pub generation : ℕ
  pub retired : Bool
  pub entry : Option CapabilityEntry

-- `CapabilitySlot::EMPTY`.
abbrev pub empty_slot : CapabilitySlot
empty_slot = record { generation = 1; retired = false; entry = none }

-- `entry.is_some()`
abbrev pub is_some {ℓ} : {A : Type ℓ} → Option A → Bool
is_some none = false
is_some (some a) = true

abbrev pub is_occupied : CapabilitySlot → Bool
is_occupied s = is_some s.entry

-- `slot.entry.is_none() && !slot.retired`
abbrev pub is_available : CapabilitySlot → Bool
is_available s = not (is_some s.entry) && not s.retired

-- `iter().position(p)`.
unfoldable pub position {ℓ} : {A : Type ℓ} → (A → Bool) → List A → Option ℕ
position p [] = none
position p (x ∷ xs) = if p x then some 0 else Option.map suc (position p xs)

-- The array index: a handle's slot is below 16 and an array has 16 slots, so the default is
-- never read.
abbrev pub slot_at : List CapabilitySlot → ℕ → CapabilitySlot
slot_at slots i = get_or slots i empty_slot

-- `CapabilityTable::remove_entry`.
unfoldable pub remove_entry : CapabilitySlot → CapabilitySlot
remove_entry s =
    if s.generation == capability_generation_max
    then record s { entry = none; retired = true }
    else record s { entry = none; generation = s.generation + 1 }

-- The loop of `close_all`.
abbrev pub remove_if_occupied : CapabilitySlot → CapabilitySlot
remove_if_occupied s = if is_occupied s then remove_entry s else s

-- `*slot == CapabilitySlot::EMPTY`.
abbrev pub is_empty_slot : CapabilitySlot → Bool
is_empty_slot s = s.generation == 1 && not s.retired && not (is_occupied s)
