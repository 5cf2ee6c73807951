-- ===== src/Examples/Normalize.antt =====
-- A usable firmware region of sixteen pages, the kernel's image laid over four of them.
use makopa_os.Common.{some, ◌≡◌, refl, true, List, [], ◌∷◌, ok, err}
use makopa_os.Boot.{MemoryRegionV1}
use makopa_os.Boot.Normalize.{
  SourceMemoryRegion, MemoryRegionOverride, normalize_memory_regions, normalize_sources,
  validate_overrides, validate_required_overrides, covered_to, checked_region_end, region_end,
  replace_in, emit, append_region, override_outside_source,
}
use makopa_os.Boot.Normalize.Writer.{kind_at}
use makopa_os.Boot.Normalize.Normalized.{normalize_memory_regions_lem}

abbrev firmware : List SourceMemoryRegion
firmware =
    record { physical_start = 4096; page_count = 4; kind = 1 }
    ∷ record { physical_start = 20480; page_count = 12; kind = 1 }
    ∷ []

abbrev image : List MemoryRegionOverride
image =
    record { physical_start = 16384; page_count = 4; kind = 2; require_full_coverage = true } ∷ []

abbrev memory_map : List MemoryRegionV1
memory_map =
    record { physical_start = 4096; page_count = 3; kind = 1; attributes = 0 }
    ∷ record { physical_start = 16384; page_count = 4; kind = 2; attributes = 0 }
    ∷ record { physical_start = 32768; page_count = 9; kind = 1; attributes = 0 }
    ∷ []

normalized : normalize_memory_regions firmware image 64 ≡ ok memory_map
unfolding normalize_memory_regions validate_overrides normalize_sources checked_region_end
    region_end replace_in emit append_region validate_required_overrides covered_to
normalized = refl

-- An override that no firmware region reaches.
outside :
    normalize_memory_regions firmware
      (record { physical_start = 69632; page_count = 1; kind = 2; require_full_coverage = true }
        ∷ [])
      64
    ≡ err override_outside_source
unfolding normalize_memory_regions validate_overrides normalize_sources checked_region_end
    region_end replace_in emit append_region validate_required_overrides covered_to
outside = refl

normalize_memory_regions_lem_example : kind_at memory_map 20480 ≡ some 2
normalize_memory_regions_lem_example =
    (normalize_memory_regions_lem firmware image 64 memory_map normalized).4 20480
