-- ===== src/Capabilities/Table/Frame.antt =====
-- What `allocate` does to the slot that it takes and to the others.
use makopa_os.Common.{
  ℕ, ◌<◌, ◌≡◌, ◌≢◌, ◌⊎◌, inl, inr, true, some, arith, ap, sym, bit_and, set, length, ok, err,
  Option-cases, ℕ_discrete, ◌∙◌,
}
use makopa_os.Abi.{invalid_handle}
use makopa_os.Capabilities.Handle.{
  from_parts, decode, from_parts_value, from_parts-decode_iff, decode_injective,
}
use makopa_os.Capabilities.Slots.{CapabilityEntry, is_available, position, slot_at}
use makopa_os.Capabilities.Slots.Access.{position-some, slot_at-set_self, slot_at-set_ne}
use makopa_os.Capabilities.Table.{CapabilityTable, allocate, resolve_typed, serves}

-- What a successful allocation has found and written.
pub allocate-ok :
    (t t' : CapabilityTable) (entry : CapabilityEntry) (h : ℕ)
    → allocate t entry ≡ (t', ok h)
    → (i : ℕ) × (position is_available t.slots ≡ some i)
      × (from_parts i (slot_at t.slots i).generation ≡ some h)
      × (t'
          ≡ record t { slots = set t.slots i (record (slot_at t.slots i) { entry = some entry }) })
unfolding allocate
allocate-ok t t' entry h e = elim (Option-cases (position is_available t.slots)) [
  | inl none_free ↦ ground (arith)
  | inr (i, found) ↦ (i, found, ground arith, ground arith)
]

-- A handle that was packed decodes to what it was packed from.
pub handle_names : (i g h : ℕ) → from_parts i g ≡ some h → decode h ≡ some (i, g)
handle_names i g h e =
    let v = from_parts_value i g h e in (from_parts-decode_iff h i g (omega arith)).0 e

-- A handle resolves to nothing where its slot is retired or is at another generation.
abbrev pub IsStale : CapabilityTable → ℕ → ℕ → Type 0
IsStale t i k = ((slot_at t.slots i).retired ≡ true) ⊎ ((slot_at t.slots i).generation ≢ k)

pub resolve_typed_stale :
    (t : CapabilityTable) (i k : ℕ) (task_id task_generation raw object_type right : ℕ)
    → decode raw ≡ some (i, k)
    → IsStale t i k
    → resolve_typed t task_id task_generation raw object_type right ≡ err invalid_handle
unfolding resolve_typed
resolve_typed_stale t i k task_id task_generation raw object_type right e (inl gone) =
    rw e (ground arith)
resolve_typed_stale t i k task_id task_generation raw object_type right e (inr moved) =
    rw e (ground arith)

-- A handle that names another slot, or another generation of the same slot, reads the same.
resolve_typed-set_entry :
    (t : CapabilityTable) (i h raw task_id task_generation object_type right : ℕ)
    (entry : CapabilityEntry)
    → i < length t.slots
    → decode h ≡ some (i, (slot_at t.slots i).generation)
    → raw ≢ h
    → resolve_typed
        (record t { slots = set t.slots i (record (slot_at t.slots i) { entry = some entry }) })
        task_id
        task_generation
        raw
        object_type
        right
      ≡ resolve_typed t task_id task_generation raw object_type right
unfolding resolve_typed
resolve_typed-set_entry t i h raw task_id task_generation object_type right entry inside names
      other =
    elim (Option-cases (decode raw)) [
      | inl e ↦ rw e (ground arith)
      | inr ((j, k), e) ↦ elim (ℕ_discrete i j) [
        | yes same ↦
            let moved : (slot_at t.slots i).generation ≢ k = λ p. other (
              decode_injective raw h i k (e ∙ ap (λ (x : ℕ). some (x, k)) (sym same))
                (names ∙ ap (λ (x : ℕ). some (i, x)) p)) in
            resolve_typed_stale _ i k task_id task_generation raw object_type right
              (e ∙ ap (λ (x : ℕ). some (x, k)) (sym same))
              (inr (rw (slot_at-set_self t.slots i _ inside) moved))
            ∙ sym (
                resolve_typed_stale t i k task_id task_generation raw object_type right
                  (e ∙ ap (λ (x : ℕ). some (x, k)) (sym same)) (inr moved))
        | no differs ↦ rw (e, slot_at-set_ne t.slots i j _ differs)
      ]
    ]

-- A successful allocation returns a handle that resolved to nothing before. After it the handle
-- resolves, in a live table of the entry's task and for a right of the entry, to the new entry,
-- and every other handle resolves as it did.
pub allocate_fresh :
    (t t' : CapabilityTable) (entry : CapabilityEntry) (h : ℕ)
    → allocate t entry ≡ (t', ok h)
    → ((object_type right : ℕ)
        → resolve_typed t entry.task_id entry.task_generation h object_type right
          ≡ err invalid_handle)
      × ((right : ℕ)
          → serves t entry.task_id entry.task_generation ≡ true
          → bit_and entry.rights right ≢ 0
          → resolve_typed t' entry.task_id entry.task_generation h entry.object_type right
            ≡ ok entry)
      × ((task_id task_generation raw object_type right : ℕ)
          → raw ≢ h
          → resolve_typed t' task_id task_generation raw object_type right
            ≡ resolve_typed t task_id task_generation raw object_type right)
unfolding resolve_typed
allocate_fresh t t' entry h e =
    let (i, found, packed, shape) = allocate-ok t t' entry h e in
    let (inside, open_slot) = position-some is_available t.slots i found in
    let named = handle_names i (slot_at t.slots i).generation h packed in
    (
      λ object_type right. rw named (ground arith),
      λ right serving held. rw (shape, named, slot_at-set_self t.slots i _ inside) (ground arith),
      λ task_id task_generation raw object_type right other. rw shape (
          resolve_typed-set_entry t i h raw task_id task_generation object_type right entry inside
            named other),
    )
