-- ===== src/Frames/Initialization.antt =====
-- `FrameAllocator::initialize`: the usable regions of a memory map become the managed extents.
use makopa_os.Common.{
  ℕ, ◌+◌, ◌%◌, ◌&&◌, not, Bool, false, Option, none, some, List, [], ◌∷◌, ◌++◌, ltb, ◌==◌, ◌/=◌,
  if◌then◌else◌, Result, ok, err, ◌>>=◌, ◌>>◌, reject_if, ok_or, checked_add, checked_mul,
}
use makopa_os.Boot.{MemoryRegionV1, page_size, memory_usable, is_known_memory_kind}
use makopa_os.Boot.Validate.{below_some}
use makopa_os.Frames.{Extent, FrameAllocator, extent_end, new, max_frame_extents}

pub data InitError : Type 0 where
  zero_pages unaligned range_overflow out_of_order overlap unknown_kind attributes : InitError
  capacity_exceeded : InitError

-- `previous == Some(value)`.
abbrev pub is_some_value : Option ℕ → ℕ → Bool
is_some_value none value = false
is_some_value (some p) value = p == value

-- `checked_mul(PAGE_SIZE)` and `checked_add(physical_start)` of a region.
abbrev pub region_limit : MemoryRegionV1 → Option ℕ
region_limit r = elim (checked_mul r.page_count page_size) [
  | none ↦ none
  | some bytes ↦ checked_add r.physical_start bytes
]

-- The count after one more region. `usize` is 64 bits, and the bound stands below its overflow.
abbrev pub counted : Option ℕ → ℕ → MemoryRegionV1 → Result InitError ℕ
counted previous_usable_end extent_count r =
    if r.kind == memory_usable && not (is_some_value previous_usable_end r.physical_start)
    then if ltb max_frame_extents (extent_count + 1)
      then err InitError.capacity_exceeded
      else ok (extent_count + 1)
    else ok extent_count

-- The loop of `validate_and_count_extents`, with its four variables.
unfoldable pub count_extents :
    Option ℕ → Option ℕ → Option ℕ → ℕ → List MemoryRegionV1 → Result InitError ℕ
count_extents previous_start previous_end previous_usable_end extent_count [] = ok extent_count
count_extents previous_start previous_end previous_usable_end extent_count (r ∷ rs) =
    let rest = λ (end count : ℕ).
      count_extents (some r.physical_start) (some end)
        (if r.kind == memory_usable then some end else none) count rs in
    do
      reject_if (r.page_count == 0) zero_pages
      reject_if (r.physical_start % page_size /= 0) InitError.unaligned
      reject_if (not (is_known_memory_kind r.kind)) unknown_kind
      reject_if (r.attributes /= 0) attributes
      end ← ok_or (region_limit r) range_overflow
      reject_if (below_some r.physical_start previous_start) out_of_order
      reject_if (below_some r.physical_start previous_end) overlap
      count ← counted previous_usable_end extent_count r
      rest end count

-- `validate_and_count_extents`.
unfoldable pub validate_and_count_extents : List MemoryRegionV1 → Result InitError ℕ
unfolding count_extents
validate_and_count_extents regions = count_extents none none none 0 regions

-- `managed[managed_len - 1].end() == Some(start)`, if there is one.
abbrev pub can_merge : List Extent → ℕ → Bool
can_merge [] start = false
can_merge (e ∷ []) start = is_some_value (extent_end e) start
can_merge (e ∷ e' ∷ es) start = can_merge (e' ∷ es) start

-- `array[len - 1].page_count += pages`.
abbrev pub grow_last : List Extent → ℕ → List Extent
grow_last [] pages = []
grow_last (e ∷ []) pages = record e { page_count = e.page_count + pages } ∷ []
grow_last (e ∷ e' ∷ es) pages = e ∷ grow_last (e' ∷ es) pages

-- One round of the filling loop of `initialize`: `can_merge` is asked of the managed extents, and
-- both arrays grow alike.
unfoldable pub fill_region : FrameAllocator → MemoryRegionV1 → FrameAllocator
unfolding extent_end
fill_region a r =
    let extent : Extent = record { physical_start = r.physical_start; page_count = r.page_count } in
    if r.kind /= memory_usable
    then a
    else if can_merge a.managed r.physical_start
    then record { managed = grow_last a.managed r.page_count; free = grow_last a.free r.page_count }
    else record { managed = a.managed ++ extent ∷ []; free = a.free ++ extent ∷ [] }

unfoldable pub fill : FrameAllocator → List MemoryRegionV1 → FrameAllocator
unfolding fill_region
fill a [] = a
fill a (r ∷ rs) = fill (fill_region a r) rs

unfoldable pub initialize :
    FrameAllocator → List MemoryRegionV1 → FrameAllocator × Result InitError (Unit {0})
unfolding validate_and_count_extents fill
initialize a regions = elim (validate_and_count_extents regions) [
  | err e ↦ (a, err e)
  | ok count ↦ (fill new regions, ok tt)
]
