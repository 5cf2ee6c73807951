-- ===== src/AddressSpace/Layout.antt =====
-- crates/address-space/src/lib.rs: the fixed addresses, mapping flags and links, and their check.
use makopa_os.Common.{
  ℕ, ◌+◌, ◌-◌, ◌*◌, ◌/◌, ◌%◌, ◌^◌, ◌||◌, ◌&&◌, not, Bool, List, [], ◌∷◌, ltb, ◌==◌, ◌/=◌,
  if◌then◌else◌, Result, ok, err, ◌>>◌, reject_if, bit_and, bit_or, any,
}
use makopa_os.Boot.{page_size}

abbrev pub bootstrap_page_table_frames : ℕ
bootstrap_page_table_frames = 32

abbrev pub task_ledger_capacity : ℕ
task_ledger_capacity = 16

abbrev pub task_frame_count : ℕ
task_frame_count = 7

abbrev pub user_text : ℕ
user_text = 0x0000008000400000

abbrev pub invalid_write_target : ℕ
invalid_write_target = 0x0000008000600000

abbrev pub user_stack_guard_lower : ℕ
user_stack_guard_lower = 0x00000080007ff000

abbrev pub user_stack : ℕ
user_stack = 0x0000008000800000

abbrev pub user_stack_guard_upper : ℕ
user_stack_guard_upper = 0x0000008000801000

abbrev pub recovery_stack_base : ℕ
recovery_stack_base = 0xffffff0000001000

abbrev pub recovery_stack_size : ℕ
recovery_stack_size = 64 * 1024

abbrev pub recovery_stack_top : ℕ
recovery_stack_top = recovery_stack_base + recovery_stack_size

abbrev pub recovery_stack_guard_lower : ℕ
recovery_stack_guard_lower = recovery_stack_base - page_size

abbrev pub recovery_stack_guard_upper : ℕ
recovery_stack_guard_upper = recovery_stack_top

abbrev pub double_fault_stack_base : ℕ
double_fault_stack_base = 0xffffff0000021000

abbrev pub double_fault_stack_size : ℕ
double_fault_stack_size = 16 * 1024

abbrev pub double_fault_stack_top : ℕ
double_fault_stack_top = double_fault_stack_base + double_fault_stack_size

abbrev pub double_fault_stack_guard_lower : ℕ
double_fault_stack_guard_lower = double_fault_stack_base - page_size

abbrev pub double_fault_stack_guard_upper : ℕ
double_fault_stack_guard_upper = double_fault_stack_top

abbrev pub temporary_window : ℕ
temporary_window = 0xffffff8000000000

abbrev pub user_pml4_index : ℕ
user_pml4_index = 1

-- The flags of a page-table entry, as their bits.
abbrev pub present : ℕ
present = 1

abbrev pub writable : ℕ
writable = 2

abbrev pub user_accessible : ℕ
user_accessible = 4

abbrev pub no_execute : ℕ
no_execute = 2 ^ 63

abbrev pub contains : ℕ → ℕ → Bool
contains flags other = bit_and flags other == other

abbrev pub table_flags : ℕ
table_flags = bit_or (bit_or present writable) user_accessible

abbrev pub user_text_flags : ℕ
user_text_flags = bit_or present user_accessible

abbrev pub user_stack_flags : ℕ
user_stack_flags = bit_or (bit_or (bit_or present writable) user_accessible) no_execute

pub record MappingSpec : Type 0 where
  pub virtual_address : ℕ
  pub flags : ℕ

abbrev pub user_mappings : List MappingSpec
user_mappings =
    record { virtual_address = user_text; flags = user_text_flags }
    ∷ record { virtual_address = user_stack; flags = user_stack_flags }
    ∷ []

-- `shift >> n` is division by `2 ^ n`.
abbrev pub is_canonical_48 : ℕ → Bool
is_canonical_48 address =
    let upper = address / 2 ^ 48 in
    let sign = bit_and (address / 2 ^ 47) 1 in
    (sign == 0 && upper == 0) || (sign == 1 && upper == 0xffff)

abbrev pub pml4_index : ℕ → ℕ
pml4_index address = bit_and (address / 2 ^ 39) 0x1ff

abbrev pub pml3_index : ℕ → ℕ
pml3_index address = bit_and (address / 2 ^ 30) 0x1ff

abbrev pub pml2_index : ℕ → ℕ
pml2_index address = bit_and (address / 2 ^ 21) 0x1ff

abbrev pub pml1_index : ℕ → ℕ
pml1_index address = bit_and (address / 2 ^ 12) 0x1ff

pub data FrameRole : Type 0 where
  root user_pml3 user_pml2 text_pml1 stack_pml1 text stack : FrameRole

-- `FrameRole::ALL`.
abbrev pub all_roles : List FrameRole
all_roles = root ∷ user_pml3 ∷ user_pml2 ∷ text_pml1 ∷ stack_pml1 ∷ text ∷ stack ∷ []

abbrev pub index : FrameRole → ℕ
index root = 0
index user_pml3 = 1
index user_pml2 = 2
index text_pml1 = 3
index stack_pml1 = 4
index text = 5
index stack = 6

-- `==` on roles.
abbrev pub same_role : FrameRole → FrameRole → Bool
same_role r s = index r == index s

pub record LinkSpec : Type 0 where
  pub parent : FrameRole
  pub child : FrameRole
  pub entry_index : ℕ
  pub flags : ℕ

abbrev link : FrameRole → FrameRole → ℕ → ℕ → LinkSpec
link parent child entry_index flags = record {
  parent = parent;
  child = child;
  entry_index = entry_index;
  flags = flags;
}

abbrev pub build_links : List LinkSpec
build_links =
    link root user_pml3 (pml4_index user_text) table_flags
    ∷ link user_pml3 user_pml2 (pml3_index user_text) table_flags
    ∷ link user_pml2 text_pml1 (pml2_index user_text) table_flags
    ∷ link user_pml2 stack_pml1 (pml2_index user_stack) table_flags
    ∷ link text_pml1 text (pml1_index user_text) user_text_flags
    ∷ link stack_pml1 stack (pml1_index user_stack) user_stack_flags
    ∷ []

pub data LayoutError : Type 0 where
  non_canonical unaligned overlap wrong_order wrong_pml4_slot : LayoutError
  writable_executable missing_user_access guard_mapped : LayoutError

-- The three loops of `validate_fixed_layout`.
unfoldable pub check_addresses : List ℕ → Result LayoutError (Unit {0})
check_addresses [] = ok tt
check_addresses (a ∷ as_) =
    let rest = check_addresses as_ in
    do
      reject_if (not (is_canonical_48 a)) non_canonical
      reject_if (a % page_size /= 0) unaligned
      rest

unfoldable pub check_distinct : List ℕ → Result LayoutError (Unit {0})
check_distinct [] = ok tt
check_distinct (a ∷ as_) =
    let rest = check_distinct as_ in do reject_if (any (λ b. a == b) as_) overlap; rest

unfoldable pub check_mappings : List MappingSpec → Result LayoutError (Unit {0})
check_mappings [] = ok tt
check_mappings (m ∷ ms) =
    let rest = check_mappings ms in
    do
      reject_if (not (contains m.flags user_accessible)) missing_user_access
      reject_if (contains m.flags writable && not (contains m.flags no_execute)) writable_executable
      rest

abbrev pub guards : List ℕ
guards =
    invalid_write_target ∷ user_stack_guard_lower ∷ user_stack_guard_upper
    ∷ recovery_stack_guard_lower ∷ recovery_stack_guard_upper ∷ double_fault_stack_guard_lower
    ∷ double_fault_stack_guard_upper ∷ []

abbrev pub layout_addresses : List ℕ
layout_addresses =
    user_text ∷ invalid_write_target ∷ user_stack_guard_lower ∷ user_stack ∷ user_stack_guard_upper
    ∷ recovery_stack_base ∷ recovery_stack_guard_lower ∷ recovery_stack_guard_upper
    ∷ double_fault_stack_base ∷ double_fault_stack_guard_lower ∷ double_fault_stack_guard_upper
    ∷ temporary_window ∷ []

-- `page_addresses`, the same addresses in another order.
abbrev pub page_addresses : List ℕ
page_addresses =
    user_text ∷ invalid_write_target ∷ user_stack_guard_lower ∷ user_stack ∷ user_stack_guard_upper
    ∷ recovery_stack_guard_lower ∷ recovery_stack_base ∷ recovery_stack_guard_upper
    ∷ double_fault_stack_guard_lower ∷ double_fault_stack_base ∷ double_fault_stack_guard_upper
    ∷ temporary_window ∷ []

unfoldable pub validate_fixed_layout : Result LayoutError (Unit {0})
unfolding check_addresses check_distinct check_mappings
validate_fixed_layout = do
  check_addresses layout_addresses
  reject_if (pml4_index user_text /= user_pml4_index || pml4_index user_stack /= user_pml4_index)
      wrong_pml4_slot
  reject_if
      (pml4_index recovery_stack_base /= 510
        || pml4_index double_fault_stack_base /= 510
        || pml4_index temporary_window /= 511)
      wrong_pml4_slot
  reject_if
      (not (
        ltb user_text invalid_write_target
        && ltb invalid_write_target user_stack_guard_lower
        && ltb user_stack_guard_lower user_stack
        && ltb user_stack user_stack_guard_upper))
      wrong_order
  check_distinct page_addresses
  check_mappings user_mappings
  reject_if
      (any (λ (m : MappingSpec). any (λ (g : ℕ). m.virtual_address == g) guards) user_mappings)
      guard_mapped

pub record BootstrapBudget : Type 0 where
  pub used : ℕ

pub data BootstrapBudgetError : Type 0 where
  exhausted : BootstrapBudgetError

-- `BootstrapBudget::claim`: the index of the frame claimed.
unfoldable pub claim : BootstrapBudget → BootstrapBudget × Result BootstrapBudgetError ℕ
claim b =
    if b.used == bootstrap_page_table_frames
    then (b, err exhausted)
    else (record b { used = b.used + 1 }, ok b.used)
