-- ===== src/Capabilities/Handle.antt =====
-- crates/task-runtime/src/lib.rs, `CapabilityHandleV1`: a handle packs a slot (four bits) and a
-- generation (60 bits) into a u64.
use makopa_os.Common.{
  ℕ, ◌+◌, ◌*◌, ◌/◌, ◌%◌, ◌≤◌, ◌<◌, ◌≡◌, ◌↔◌, bit_and, bit_or, ◌||◌, Option, none, some, arith, ltb,
  leb, ◌==◌, if◌then◌else◌, u64_mod, bit_and_nibble, bit_or_nibble,
}
use makopa_os.Abi.{capability_slot_count, capability_generation_max}

-- `CapabilityHandleV1::from_parts`, then `raw`. The shift is of a u64, so it wraps.
unfoldable pub from_parts : ℕ → ℕ → Option ℕ
from_parts slot generation =
    if leb capability_slot_count slot || generation == 0 || ltb capability_generation_max generation
    then none
    else some (bit_or (generation * 16 % u64_mod) slot)

-- `CapabilityHandleV1::decode`.
unfoldable pub decode : ℕ → Option (ℕ × ℕ)
decode raw =
    let generation = raw / 16 in
    if generation == 0 then none else some (bit_and raw 0xf, generation)

-- The value of a handle.
pub from_parts_value :
    (slot generation h : ℕ)
    → from_parts slot generation ≡ some h
    → (h ≡ generation * 16 + slot)
      × (slot < 16)
      × (0 < generation)
      × (generation ≤ capability_generation_max)
unfolding from_parts
from_parts_value slot generation h e =
    ground (arith, bit_or_nibble (generation * 16 % u64_mod / 16) slot)

pub decode_value :
    (raw slot generation : ℕ)
    → decode raw ≡ some (slot, generation)
    → (raw ≡ generation * 16 + slot) × (slot < 16) × (0 < generation)
unfolding decode
decode_value raw slot generation e = ground (arith, bit_and_nibble raw)

-- Decoding inverts packing in both directions: a u64 is the handle of a slot and a generation
-- exactly when it decodes to them, and no generation that a u64 can hold is out of range.
pub from_parts-decode_iff :
    (raw slot generation : ℕ)
    → raw < u64_mod
    → (from_parts slot generation ≡ some raw) ↔ (decode raw ≡ some (slot, generation))
unfolding from_parts decode
from_parts-decode_iff raw slot generation h = (
  λ e. ground (arith, from_parts_value slot generation raw e, bit_and_nibble raw),
  λ e. ground (arith, decode_value raw slot generation e, bit_or_nibble generation slot),
)

-- Two handles with the same slot and generation are the same.
pub decode_injective :
    (a b slot generation : ℕ)
    → decode a ≡ some (slot, generation)
    → decode b ≡ some (slot, generation)
    → a ≡ b
decode_injective a b slot generation p q =
    omega (arith, decode_value a slot generation p, decode_value b slot generation q)
