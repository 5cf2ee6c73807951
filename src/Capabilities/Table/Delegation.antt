-- ===== src/Capabilities/Table/Delegation.antt =====
-- `CapabilityTable::duplicate`: the rights of the copy, and the other handles.
use makopa_os.Common.{
  ℕ, ◌≤◌, ◌<◌, ◌≡◌, ◌≢◌, inl, inr, true, arith, bit_and, not_u64, ok, Option-cases, u64_mod,
  bit_and_subset,
}
use makopa_os.Abi.{object_type_endpoint, right_duplicate}
use makopa_os.Capabilities.Handle.{decode}
use makopa_os.Capabilities.Rights.{valid_rights}
use makopa_os.Capabilities.Slots.{CapabilityEntry}
use makopa_os.Capabilities.Table.{CapabilityTable, serves, resolve_typed, allocate, duplicate}
use makopa_os.Capabilities.Table.Frame.{allocate_fresh}

-- What a resolved entry says of its table.
pub resolve_typed-serves :
    (t : CapabilityTable) (task_id task_generation raw object_type right : ℕ)
    (entry : CapabilityEntry)
    → resolve_typed t task_id task_generation raw object_type right ≡ ok entry
    → (serves t task_id task_generation ≡ true)
      × (entry.task_id ≡ task_id)
      × (entry.task_generation ≡ task_generation)
      × (entry.object_type ≡ object_type)
      × (bit_and entry.rights right ≢ 0)
unfolding resolve_typed
resolve_typed-serves t task_id task_generation raw object_type right entry e =
    elim (Option-cases (decode raw)) [
      | inl d ↦ absurd (ground arith)
      | inr ((i, k), d) ↦ ground arith
    ]

duplicate-ok :
    (t t' : CapabilityTable) (task_id task_generation source rights h : ℕ) (entry : CapabilityEntry)
    → resolve_typed t task_id task_generation source object_type_endpoint right_duplicate ≡ ok entry
    → duplicate t task_id task_generation source rights ≡ (t', ok h)
    → (valid_rights object_type_endpoint rights ≡ true)
      × (bit_and rights (not_u64 entry.rights) ≡ 0)
      × (allocate t (record entry { rights = rights }) ≡ (t', ok h))
unfolding duplicate
duplicate-ok t t' task_id task_generation source rights h entry e d = ground arith

-- A duplicate of an endpoint handle attenuates: it refers to the object of its source, with the
-- requested rights, which are a subset of those of the source whatever mask they are tested by.
-- The source, and every other handle, resolves as before.
pub duplicate_attenuates :
    (t t' : CapabilityTable) (task_id task_generation source rights h : ℕ) (entry : CapabilityEntry)
    → rights < u64_mod
    → entry.rights < u64_mod
    → resolve_typed t task_id task_generation source object_type_endpoint right_duplicate ≡ ok entry
    → duplicate t task_id task_generation source rights ≡ (t', ok h)
    → ((mask : ℕ) → bit_and rights mask ≤ bit_and entry.rights mask)
      × ((right : ℕ)
          → bit_and rights right ≢ 0
          → resolve_typed t' task_id task_generation h object_type_endpoint right
            ≡ ok (record entry { rights = rights }))
      × (h ≢ source)
      × ((raw object_type right : ℕ)
          → raw ≢ h
          → resolve_typed t' task_id task_generation raw object_type right
            ≡ resolve_typed t task_id task_generation raw object_type right)
duplicate_attenuates t t' task_id task_generation source rights h entry small held e d =
    let (serving, of_task, of_generation, typed, may) =
      resolve_typed-serves t task_id task_generation source object_type_endpoint right_duplicate
        entry e in
    let (valid, within, allocated) =
      duplicate-ok t t' task_id task_generation source rights h entry e d in
    let (unused, fresh, others) =
      allocate_fresh t t' (record entry { rights = rights }) h allocated in
    (
      λ mask. bit_and_subset rights entry.rights mask small held within,
      λ right asked. ground (arith, fresh right),
      λ same. ground (arith, unused object_type_endpoint right_duplicate),
      λ raw object_type right other. others task_id task_generation raw object_type right other,
    )
