-- ===== src/Capabilities/Rights.antt =====
-- crates/task-runtime/src/lib.rs, `valid_rights`: which rights an object of each type may carry.
use makopa_os.Common.{
  ℕ, ◌<◌, ◌≡◌, ◌⊎◌, ◌↔◌, bit_and, bit_or, ◌||◌, Bool, true, false, arith, ◌==◌, ◌/=◌, if◌then◌else◌,
  u64_mod, not_u64, bit_and_above_three, bit_and_above_eight,
}
use makopa_os.Abi.{
  right_send, right_receive, right_duplicate, right_start, right_submit_approval,
  right_decide_approval, right_commit_effect, right_read_effect_journal, rights_v1,
  object_type_endpoint, object_type_task_control, object_type_approval_broker,
  object_type_test_effect, object_type_effect_journal,
}

pub endpoint_rights : ℕ
endpoint_rights = bit_or (bit_or right_send right_receive) right_duplicate

-- The `match` on the object type.
pub rights_for_type : ℕ → ℕ → Bool
unfolding endpoint_rights
rights_for_type object_type rights =
    if object_type == object_type_endpoint
    then bit_and rights (not_u64 endpoint_rights) == 0
    else if object_type == object_type_task_control
    then rights == right_start
    else if object_type == object_type_approval_broker
    then rights == right_submit_approval || rights == right_decide_approval
    else if object_type == object_type_test_effect
    then rights == right_commit_effect
    else if object_type == object_type_effect_journal
    then rights == right_read_effect_journal
    else false

unfoldable pub valid_rights : ℕ → ℕ → Bool
unfolding rights_for_type
valid_rights object_type rights =
    if rights == 0 || bit_and rights (not_u64 rights_v1) /= 0
    then false
    else rights_for_type object_type rights

-- The pairs of an object type and a set of rights that the runtime may install.
abbrev pub Grantable : ℕ → ℕ → Type 0
Grantable object_type rights =
    ((object_type ≡ object_type_endpoint) × (0 < rights) × (rights < 8))
    ⊎ ((object_type ≡ object_type_task_control) × (rights ≡ right_start))
    ⊎ ((object_type ≡ object_type_approval_broker) × (rights ≡ right_submit_approval))
    ⊎ ((object_type ≡ object_type_approval_broker) × (rights ≡ right_decide_approval))
    ⊎ ((object_type ≡ object_type_test_effect) × (rights ≡ right_commit_effect))
    ⊎ ((object_type ≡ object_type_effect_journal) × (rights ≡ right_read_effect_journal))

-- A u64 of rights is valid for an object type exactly when the pair is grantable: a non-empty set
-- of send, receive and duplicate for an endpoint, and single fixed rights for the other types.
pub valid_rights_iff :
    (object_type rights : ℕ)
    → rights < u64_mod
    → (valid_rights object_type rights ≡ true) ↔ Grantable object_type rights
unfolding valid_rights
valid_rights_iff object_type rights h = (
  λ e. ground (arith, bit_and_above_three rights h, bit_and_above_eight rights h),
  λ g. ground (arith, bit_and_above_three rights h, bit_and_above_eight rights h),
)
