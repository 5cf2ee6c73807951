-- ===== src/Boot/Normalize.antt =====
-- crates/boot-contract/src/normalize.rs: the memory map that the loader hands over, from the
-- firmware's regions and the regions that override them. After an error the source leaves the
-- caller's slice partly written; the model drops it.
pub mod Writer
pub mod Overrides
pub mod Rounds
pub mod Sources
pub mod Normalized
use makopa_os.Common.{
  rev_append, ℕ, ◌-◌, ◌/◌, ◌*◌, ◌%◌, ◌||◌, ◌&&◌, not, Bool, true, false, Option, none, some, List,
  [], ◌∷◌, ltb, leb, ◌==◌, ◌/=◌, if◌then◌else◌, length, Result, ok, err, ◌>>=◌, ◌>>◌, reject_if,
  ok_or, checked_add, checked_mul, min, max,
}
use makopa_os.Boot.{page_size, max_memory_regions, is_known_memory_kind, MemoryRegionV1}
use makopa_os.Boot.Validate.{below_some}

pub record SourceMemoryRegion : Type 0 where
  pub physical_start : ℕ
  pub page_count : ℕ
  pub kind : ℕ

pub record MemoryRegionOverride : Type 0 where
  pub physical_start : ℕ
  pub page_count : ℕ
  pub kind : ℕ
  pub require_full_coverage : Bool

pub data NormalizeError : Type 0 where
  empty_source zero_pages unaligned_start range_overflow unknown_kind : NormalizeError
  source_out_of_order source_overlap override_out_of_order override_overlap : NormalizeError
  override_outside_source capacity_exceeded : NormalizeError

unfoldable pub region_end : ℕ → ℕ → Result NormalizeError ℕ
region_end start pages = do
  reject_if (pages == 0) zero_pages
  reject_if (start % page_size /= 0) unaligned_start
  bytes ← ok_or (checked_mul pages page_size) range_overflow
  ok_or (checked_add start bytes) range_overflow

unfoldable pub checked_region_end : ℕ → ℕ → ℕ → Result NormalizeError ℕ
unfolding region_end
checked_region_end start pages kind = do
  reject_if (not (is_known_memory_kind kind)) unknown_kind
  region_end start pages

-- The loop over the overrides, with the previous start and end.
unfoldable pub validate_overrides :
    Option ℕ → Option ℕ → List MemoryRegionOverride → Result NormalizeError (Unit {0})
unfolding checked_region_end
validate_overrides previous_start previous_end [] = ok tt
validate_overrides previous_start previous_end (o ∷ os) =
    let rest = λ (end : ℕ). validate_overrides (some o.physical_start) (some end) os in
    do
      end ← checked_region_end o.physical_start o.page_count o.kind
      reject_if (below_some o.physical_start previous_start) override_out_of_order
      reject_if (below_some o.physical_start previous_end) override_overlap
      rest end

-- `output[..len]`, the region written last at the head, and `output.len()`.
pub record RegionWriter : Type 0 where
  pub written : List MemoryRegionV1
  pub capacity : ℕ

unfoldable pub append_region : RegionWriter → ℕ → ℕ → ℕ → Result NormalizeError RegionWriter
append_region w start page_count kind = do
  reject_if (length w.written == w.capacity) capacity_exceeded
  ok (record w {
    written =
        (record { physical_start = start; page_count = page_count; kind = kind; attributes = 0 })
        ∷ w.written;
  })

-- Every call has `start <= end`, so that `end - start` does not wrap.
unfoldable pub emit : RegionWriter → ℕ → ℕ → ℕ → Result NormalizeError RegionWriter
unfolding region_end append_region
emit w start end kind = if start == end then ok w else emit_pages w.written
  where
    pages : ℕ
    pages = (end - start) / page_size

    emit_pages : List MemoryRegionV1 → Result NormalizeError RegionWriter
    emit_pages [] = append_region w start pages kind
    emit_pages (previous ∷ rs) = do
      previous_end ← region_end previous.physical_start previous.page_count
      (if previous.kind == kind && previous_end == start
          then (do
            total ← ok_or (checked_add previous.page_count pages) range_overflow
            ok (record w { written = (record previous { page_count = total }) ∷ rs }))
          else append_region w start pages kind)

-- The inner loop on one source region: the cursor, the overrides from `override_index` on, and the
-- writer, when it breaks or the overrides end.
unfoldable pub replace_in :
    ℕ
    → ℕ
    → ℕ
    → List MemoryRegionOverride
    → RegionWriter
    → Result NormalizeError (ℕ × List MemoryRegionOverride × RegionWriter)
unfolding emit region_end
replace_in kind source_end cursor [] w = ok (cursor, [], w)
replace_in kind source_end cursor (o ∷ os) w =
    let rest = λ (c : ℕ) (v : RegionWriter). replace_in kind source_end c os v in
    do
      replacement_end ← region_end o.physical_start o.page_count
      (if leb replacement_end cursor
          then rest cursor w
          else if leb source_end o.physical_start
          then ok (cursor, o ∷ os, w)
          else do
            before ← emit w cursor (max o.physical_start cursor) kind
            after ←
                emit before (max o.physical_start cursor) (min replacement_end source_end) o.kind
            (if min replacement_end source_end == replacement_end
                then rest (min replacement_end source_end) after
                else ok (min replacement_end source_end, o ∷ os, after)))

unfoldable pub normalize_sources :
    Option ℕ
    → Option ℕ
    → List MemoryRegionOverride
    → List SourceMemoryRegion
    → RegionWriter
    → Result NormalizeError RegionWriter
unfolding emit checked_region_end replace_in
normalize_sources previous_start previous_end os [] w = ok w
normalize_sources previous_start previous_end os (s ∷ ss) w =
    let rest = λ (end : ℕ) (ps : List MemoryRegionOverride) (v : RegionWriter).
      normalize_sources (some s.physical_start) (some end) ps ss v in
    do
      source_end ← checked_region_end s.physical_start s.page_count s.kind
      reject_if (below_some s.physical_start previous_start) source_out_of_order
      reject_if (below_some s.physical_start previous_end) source_overlap
      (cursor, ps, replaced) ← replace_in s.kind source_end s.physical_start os w
      finished ← emit replaced cursor source_end s.kind
      rest source_end ps finished

-- The loop over the output for one override, from the cursor.
unfoldable pub covered_to : ℕ → ℕ → ℕ → List MemoryRegionV1 → Result NormalizeError ℕ
unfolding region_end
covered_to kind replacement_end cursor [] = ok cursor
covered_to kind replacement_end cursor (r ∷ rs) =
    let rest = λ (c : ℕ). covered_to kind replacement_end c rs in
    do
      output_end ← region_end r.physical_start r.page_count
      (if leb output_end cursor
          then rest cursor
          else if ltb cursor r.physical_start || r.kind /= kind
          then ok cursor
          else if min output_end replacement_end == replacement_end
          then ok (min output_end replacement_end)
          else rest (min output_end replacement_end))

unfoldable pub validate_required_overrides :
    List MemoryRegionOverride → List MemoryRegionV1 → Result NormalizeError (Unit {0})
unfolding region_end covered_to
validate_required_overrides [] output = ok tt
validate_required_overrides (o ∷ os) output =
    let rest = validate_required_overrides os output in
    if not o.require_full_coverage then rest else do
      replacement_end ← region_end o.physical_start o.page_count
      cursor ← covered_to o.kind replacement_end o.physical_start output
      reject_if (cursor /= replacement_end) override_outside_source
      rest

-- `output.len()`, the slice's length, is an argument; the result is `output[..len]`.
unfoldable pub normalize_memory_regions :
    List SourceMemoryRegion
    → List MemoryRegionOverride
    → ℕ
    → Result NormalizeError (List MemoryRegionV1)
unfolding validate_overrides normalize_sources validate_required_overrides
normalize_memory_regions sources overrides capacity = do
  reject_if (ltb max_memory_regions capacity) capacity_exceeded
  validate_overrides none none overrides
  w ← normalize_sources none none overrides sources (record { written = []; capacity = capacity })
  reject_if (length sources == 0) empty_source
  reject_if (length w.written == 0) empty_source
  validate_required_overrides overrides (rev_append w.written [])
  ok (rev_append w.written [])
