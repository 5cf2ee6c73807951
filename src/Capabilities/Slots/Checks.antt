-- ===== src/Capabilities/Slots/Checks.antt =====
-- Tests of every slot of a table, after one slot is written or all are mapped.
use makopa_os.Common.{
  ℕ, zero, suc, ◌≡◌, refl, Bool, true, false, List, [], ◌∷◌, map, arith, set, all, any,
}
use makopa_os.Capabilities.Slots.{
  CapabilitySlot, empty_slot, is_occupied, slot_at, remove_entry, remove_if_occupied,
}

module _ (p : CapabilitySlot → Bool) where
  pub all-set :
      (slots : List CapabilitySlot) (i : ℕ) (s : CapabilitySlot)
      → all p slots ≡ true
      → p s ≡ true
      → all p (set slots i s) ≡ true
  all-set [] i s a h = refl
  all-set (x ∷ slots) zero s a h = ground arith
  all-set (x ∷ slots) (suc i) s a h = ground (arith, all-set slots i s)

  pub all-slot_at :
      (slots : List CapabilitySlot) (i : ℕ)
      → all p slots ≡ true
      → p empty_slot ≡ true
      → p (slot_at slots i) ≡ true
  all-slot_at [] i a h = h
  all-slot_at (x ∷ slots) zero a h = ground arith
  all-slot_at (x ∷ slots) (suc i) a h = ground (arith, all-slot_at slots i)

  pub all-map :
      (f : CapabilitySlot → CapabilitySlot) (slots : List CapabilitySlot)
      → ((s : CapabilitySlot) → p s ≡ true → p (f s) ≡ true)
      → all p slots ≡ true
      → all p (map f slots) ≡ true
  all-map f [] h a = refl
  all-map f (x ∷ slots) h a = ground (arith, h x, all-map f slots h)

pub any_occupied-set :
    (slots : List CapabilitySlot) (i : ℕ) (s : CapabilitySlot)
    → any is_occupied slots ≡ false
    → is_occupied s ≡ false
    → any is_occupied (set slots i s) ≡ false
any_occupied-set [] i s a h = refl
any_occupied-set (x ∷ slots) zero s a h = ground arith
any_occupied-set (x ∷ slots) (suc i) s a h = ground (arith, any_occupied-set slots i s)

pub any_occupied-map :
    (slots : List CapabilitySlot) → any is_occupied (map remove_if_occupied slots) ≡ false
unfolding remove_entry
any_occupied-map [] = refl
any_occupied-map (s ∷ slots) = ground (arith, any_occupied-map slots)
