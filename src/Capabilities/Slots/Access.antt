-- ===== src/Capabilities/Slots/Access.antt =====
-- Reading, writing and searching the slot array of a capability table.
use makopa_os.Common.{
  ℕ, zero, suc, ◌≤◌, ◌<◌, ◌≡◌, ◌≢◌, refl, ap, sym, ◌⊎◌, Bool, true, false, none, some, List, [],
  ◌∷◌, map, arith, set, length, All,
}
use makopa_os.Capabilities.Slots.{
  CapabilitySlot, empty_slot, is_occupied, position, slot_at, remove_entry, remove_if_occupied,
}

-- The index that a search finds is in range and meets the test.
pub position-some :
    (p : CapabilitySlot → Bool) (slots : List CapabilitySlot) (i : ℕ)
    → position p slots ≡ some i
    → (i < length slots) × (p (slot_at slots i) ≡ true)
unfolding position
position-some p [] i e = absurd (cc)
position-some p (s ∷ slots) zero e = (omega arith, ground (arith))
position-some p (s ∷ slots) (suc i) e = ground (arith, position-some p slots i)

pub position-none :
    (p : CapabilitySlot → Bool) (slots : List CapabilitySlot)
    → position p slots ≡ none
    → All (λ s. p s ≡ false) slots
unfolding position
position-none p [] e = tt
position-none p (s ∷ slots) e = ground (arith, position-none p slots)

pub slot_at-set_self :
    (slots : List CapabilitySlot) (i : ℕ) (s : CapabilitySlot)
    → i < length slots
    → slot_at (set slots i s) i ≡ s
slot_at-set_self [] i s h = elim h [ ]
slot_at-set_self (x ∷ slots) zero s h = refl
slot_at-set_self (x ∷ slots) (suc i) s h = slot_at-set_self slots i s (omega arith)

pub slot_at-set_ne :
    (slots : List CapabilitySlot) (i j : ℕ) (s : CapabilitySlot)
    → i ≢ j
    → slot_at (set slots i s) j ≡ slot_at slots j
slot_at-set_ne [] i j s h = refl
slot_at-set_ne (x ∷ slots) zero zero s h = absurd (h refl)
slot_at-set_ne (x ∷ slots) zero (suc j) s h = refl
slot_at-set_ne (x ∷ slots) (suc i) zero s h = refl
slot_at-set_ne (x ∷ slots) (suc i) (suc j) s h = slot_at-set_ne slots i j s (λ e. h (ap suc e))

pub slot_at-map :
    (f : CapabilitySlot → CapabilitySlot) (slots : List CapabilitySlot) (i : ℕ)
    → f empty_slot ≡ empty_slot
    → slot_at (map f slots) i ≡ f (slot_at slots i)
slot_at-map f [] i e = sym e
slot_at-map f (s ∷ slots) zero e = refl
slot_at-map f (s ∷ slots) (suc i) e = slot_at-map f slots i e

-- A slot only moves forward: its generation never falls, and a retired slot stays retired.
pub record SlotLe (s s' : CapabilitySlot) : Type 0 where
  pub generations : s.generation ≤ s'.generation
  pub retirement : s.retired ≡ true → s'.retired ≡ true

pub SlotLe-set :
    (slots : List CapabilitySlot) (i j : ℕ) (s : CapabilitySlot)
    → SlotLe (slot_at slots i) s
    → SlotLe (slot_at slots j) (slot_at (set slots i s) j)
SlotLe-set [] i j s h = ground arith
SlotLe-set (x ∷ slots) zero zero s h = h
SlotLe-set (x ∷ slots) zero (suc j) s h = ground arith
SlotLe-set (x ∷ slots) (suc i) zero s h = ground arith
SlotLe-set (x ∷ slots) (suc i) (suc j) s h = SlotLe-set slots i j s h

pub SlotLe-remove_entry : (s : CapabilitySlot) → SlotLe s (remove_entry s)
unfolding remove_entry
SlotLe-remove_entry s = ground arith

pub SlotLe-remove_if_occupied : (s : CapabilitySlot) → SlotLe s (remove_if_occupied s)
unfolding remove_entry
SlotLe-remove_if_occupied s = ground arith

-- Removing an entry ends every handle that the slot has given out.
pub remove_entry_ends :
    (s : CapabilitySlot)
    → ((remove_entry s).retired ≡ true) ⊎ (s.generation < (remove_entry s).generation)
unfolding remove_entry
remove_entry_ends s = ground arith

-- Beyond the array the default is empty, so an occupied slot stands inside it.
pub occupied_inside :
    (slots : List CapabilitySlot) (i : ℕ) → is_occupied (slot_at slots i) ≡ true → i < length slots
occupied_inside [] i e = cc
occupied_inside (s ∷ slots) zero e = omega arith
occupied_inside (s ∷ slots) (suc i) e = omega (arith, occupied_inside slots i e)
