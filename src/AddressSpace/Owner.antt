-- ===== src/AddressSpace/Owner.antt =====
-- crates/address-space/src/lib.rs: the ledger of owned frames, the owner's lifecycle, and tokens.
use makopa_os.Common.{
  ℕ, ◌%◌, ◌||◌, ◌&&◌, not, Bool, true, false, Option, none, some, List, [], ◌∷◌, ◌==◌, ◌/=◌,
  if◌then◌else◌, length, Result, ok, err, ◌>>◌, reject_if, any, rev_append,
}
use makopa_os.Boot.{page_size}
use makopa_os.AddressSpace.Layout.{
  FrameRole, root, same_role, MappingSpec, user_mappings, task_ledger_capacity, task_frame_count,
}

pub data LifecycleState : Type 0 where
  building inactive active dead : LifecycleState

pub record OwnedFrame : Type 0 where
  pub role : FrameRole
  pub physical_start : ℕ

-- `frames[..len]` with the last frame at the head. The slots from `len` on hold no frame.
pub record FrameLedger : Type 0 where
  pub newest_first : List OwnedFrame

abbrev pub empty_ledger : FrameLedger
empty_ledger = record { newest_first = [] }

abbrev pub as_slice : FrameLedger → List OwnedFrame
as_slice l = rev_append l.newest_first []

pub data OwnerError : Type 0 where
  invalid_generation invalid_frame duplicate_frame ledger_full wrong_state root_not_owned :
      OwnerError
  stale_owner stale_token invalid_token_address : OwnerError

unfoldable pub push_owned : FrameLedger → OwnedFrame → Result OwnerError FrameLedger
push_owned l frame = do
  reject_if (length l.newest_first == task_ledger_capacity) ledger_full
  ok (record { newest_first = frame ∷ l.newest_first })

-- `any` asks the earlier frames in the other order.
unfoldable pub validate_latest : FrameLedger → Result OwnerError (Unit {0})
validate_latest l = latest l.newest_first
  where
    latest : List OwnedFrame → Result OwnerError (Unit {0})
    latest [] = ok tt
    latest (frame ∷ previous) = do
      reject_if (frame.physical_start % page_size /= 0) invalid_frame
      reject_if
          (any
            (λ (owned : OwnedFrame).
              owned.physical_start == frame.physical_start || same_role owned.role frame.role)
            previous)
          duplicate_frame

-- `iter().find(..)`, from the first frame on.
abbrev pub find_role : FrameRole → List OwnedFrame → Option ℕ
find_role role [] = none
find_role role (f ∷ fs) = if same_role f.role role then some f.physical_start else find_role role fs

abbrev pub frame_for : FrameLedger → FrameRole → Option ℕ
frame_for l role = find_role role (as_slice l)

pub record AddressSpaceOwner : Type 0 where
  pub generation : ℕ
  pub generation_live : Bool
  pub state : LifecycleState
  pub root_frame : Option ℕ  -- `root`
  pub ledger : FrameLedger

unfoldable pub begin : ℕ → Result OwnerError AddressSpaceOwner
begin generation = do
  reject_if (generation == 0) invalid_generation
  ok (record {
    generation = generation;
    generation_live = true;
    state = building;
    root_frame = none;
    ledger = empty_ledger;
  })

-- `==` on states.
abbrev pub state_index : LifecycleState → ℕ
state_index building = 0
state_index inactive = 1
state_index active = 2
state_index dead = 3

-- `self.state == state && self.generation_live`.
abbrev pub is_live_in : AddressSpaceOwner → LifecycleState → Bool
is_live_in o state = state_index o.state == state_index state && o.generation_live

-- The frame stays in the ledger when its validation fails.
unfoldable pub record_frame :
    AddressSpaceOwner → OwnedFrame → AddressSpaceOwner × Result OwnerError (Unit {0})
unfolding push_owned validate_latest
record_frame o frame =
    if not (is_live_in o building) then (o, err wrong_state) else elim (push_owned o.ledger frame) [
      | err e ↦ (o, err e)
      | ok l ↦ (record o { ledger = l }, validate_latest l)
    ]

abbrev pub is_some_of : Option ℕ → ℕ → Bool
is_some_of none a = false
is_some_of (some b) a = b == a

unfoldable pub publish : AddressSpaceOwner → ℕ → Result OwnerError AddressSpaceOwner
publish o frame = do
  reject_if (not (is_live_in o building)) wrong_state
  reject_if
      (not (is_some_of (frame_for o.ledger root) frame)
        || length o.ledger.newest_first /= task_frame_count)
      root_not_owned
  ok (record o { root_frame = some frame; state = inactive })

unfoldable pub activate : AddressSpaceOwner → Result OwnerError AddressSpaceOwner
activate o = do
  reject_if (not (is_live_in o inactive)) wrong_state
  ok (record o { state = active })

unfoldable pub recover : AddressSpaceOwner → Result OwnerError AddressSpaceOwner
recover o = do reject_if (not (is_live_in o active)) wrong_state; ok (record o { state = inactive })

pub record MappingToken : Type 0 where
  pub generation : ℕ
  pub virtual_address : ℕ

abbrev pub is_mapped : ℕ → Bool
is_mapped address =
    address % page_size == 0
    && any (λ (m : MappingSpec). m.virtual_address == address) user_mappings

abbrev pub is_stale : AddressSpaceOwner → Bool
is_stale o = not o.generation_live || state_index o.state == state_index dead

unfoldable pub mapping_token : AddressSpaceOwner → ℕ → Result OwnerError MappingToken
mapping_token o virtual_address = do
  reject_if (is_stale o) stale_owner
  reject_if (not (is_mapped virtual_address)) invalid_token_address
  ok (record { generation = o.generation; virtual_address = virtual_address })

unfoldable pub validate_token : AddressSpaceOwner → MappingToken → Result OwnerError (Unit {0})
validate_token o token = do
  reject_if (is_stale o) stale_owner
  reject_if (token.generation /= o.generation) stale_token
  reject_if (not (is_mapped token.virtual_address)) invalid_token_address
