-- ===== src/Frames.antt =====
-- crates/frame-allocator/src/lib.rs: the bounded allocator of physical frames. An array with its
-- length is the list of its used part; the capacity is checked where the source checks it.
pub mod Extents
pub mod Allocation
pub mod Gaps
pub mod Insertion
pub mod Release
pub mod Acceptance
pub mod Ownership
pub mod Initialization
pub mod Growth
pub mod Filling
pub mod Coverage
use makopa_os.Common.{
  rev_append, ℕ, zero, suc, ◌+◌, ◌-◌, ◌*◌, ◌%◌, ◌^◌, ◌<◌, ◌≡◌, ◌||◌, ◌&&◌, not, Bool, true, false,
  Option, none, some, List, [], ◌∷◌, ◌++◌, arith, ltb, leb, ◌==◌, ◌/=◌, if◌then◌else◌, length, any,
  Result, ok, err, ◌>>=◌, ◌>>◌, reject_if, ok_or, checked_add, checked_mul,
}
use makopa_os.Boot.{
  MemoryRegionV1, page_size, max_memory_regions, memory_usable, is_known_memory_kind,
}

abbrev pub max_frame_extents : ℕ
max_frame_extents = max_memory_regions

pub record Extent : Type 0 where
  pub physical_start : ℕ
  pub page_count : ℕ

-- `Extent::end`.
unfoldable pub extent_end : Extent → Option ℕ
extent_end e = elim (checked_mul e.page_count page_size) [
  | none ↦ none
  | some bytes ↦ checked_add e.physical_start bytes
]

-- `Extent::contains_frame`.
unfoldable pub contains_frame : Extent → ℕ → ℕ → Bool
unfolding extent_end
contains_frame e physical_start frame_end = elim (extent_end e) [
  | none ↦ false
  | some end ↦ leb e.physical_start physical_start && leb frame_end end
]

pub data AllocateError : Type 0 where
  exhausted invariant_overflow : AllocateError

pub data FreeError : Type 0 where
  unaligned address_overflow unmanaged duplicate capacity_exceeded : FreeError

-- `managed[..managed_len]` and `free[..free_len]`.
pub record FrameAllocator : Type 0 where
  pub managed : List Extent
  pub free : List Extent

-- `FrameAllocator::new`.
abbrev pub new : FrameAllocator
new = record { managed = []; free = [] }

-- The page count of a free extent is not 0, so `-= 1` does not wrap.
unfoldable pub allocate_frame : FrameAllocator → FrameAllocator × Result AllocateError ℕ
allocate_frame a = elim a.free [
  | [] ↦ (a, err exhausted)
  | e ∷ rest ↦
      if e.page_count == 1
      then (record a { free = rest }, ok e.physical_start)
      else elim (checked_add e.physical_start page_size) [
        | none ↦ (a, err invariant_overflow)
        | some next ↦
            let e' : Extent = record { physical_start = next; page_count = e.page_count - 1 } in
            (record a { free = e' ∷ rest }, ok e.physical_start)
      ]
]

-- The `while` loop of `free_frame`, with the test that follows it. The extents that `insertion` has
-- passed stand in `before`, the nearest first; the others in `after`.
unfoldable pub find_insertion :
    ℕ → ℕ → List Extent → List Extent → Result FreeError (List Extent × List Extent)
unfolding contains_frame
find_insertion start frame_end before [] = ok (before, [])
find_insertion start frame_end before (e ∷ after) =
    let rest = find_insertion start frame_end (e ∷ before) after in
    if contains_frame e start frame_end
    then err duplicate
    else if ltb e.physical_start start
    then rest
    else ok (before, e ∷ after)

-- `free[insertion - 1].end() == physical_start`, if there is such an extent.
unfoldable pub joins_left : ℕ → List Extent → Result FreeError Bool
unfolding extent_end
joins_left start [] = ok false
joins_left start (e ∷ before) = do end ← ok_or (extent_end e) address_overflow; ok (end == start)

-- `insertion < free_len && free[insertion].physical_start == frame_end`.
abbrev pub joins_right : ℕ → List Extent → Bool
joins_right frame_end [] = false
joins_right frame_end (e ∷ after) = e.physical_start == frame_end

-- The `match (joins_left, joins_right)`: the free list with the frame put in.
unfoldable pub insert_frame :
    ℕ → Bool → Bool → List Extent → List Extent → Result FreeError (List Extent)
insert_frame start true true (l ∷ before) (r ∷ after) = do
  more ← ok_or (checked_add l.page_count 1) address_overflow
  merged ← ok_or (checked_add more r.page_count) address_overflow
  ok (rev_append (record l { page_count = merged } ∷ before) after)
insert_frame start true false (l ∷ before) after = do
  merged ← ok_or (checked_add l.page_count 1) address_overflow
  ok (rev_append (record l { page_count = merged } ∷ before) after)
insert_frame start false true before (r ∷ after) = do
  merged ← ok_or (checked_add r.page_count 1) address_overflow
  ok (rev_append before (record { physical_start = start; page_count = merged } ∷ after))
insert_frame start _ _ before after =
    if length before + length after == max_frame_extents
    then err capacity_exceeded
    else ok (rev_append before (record { physical_start = start; page_count = 1 } ∷ after))

-- The checks of `free_frame` and the new free list.
unfoldable pub freed_list : FrameAllocator → ℕ → Result FreeError (List Extent)
unfolding find_insertion joins_left insert_frame contains_frame
freed_list a start = do
  reject_if (start % page_size /= 0) FreeError.unaligned
  frame_end ← ok_or (checked_add start page_size) address_overflow
  reject_if (not (any (λ e. contains_frame e start frame_end) a.managed)) unmanaged
  (before, after) ← find_insertion start frame_end [] a.free
  left ← joins_left start before
  insert_frame start left (joins_right frame_end after) before after

unfoldable pub free_frame : FrameAllocator → ℕ → FrameAllocator × Result FreeError (Unit {0})
unfolding freed_list
free_frame a start = elim (freed_list a start) [
  | err e ↦ (a, err e)
  | ok free' ↦ (record a { free = free' }, ok tt)
]
