-- ===== src/Examples/Boot.antt =====
-- A handoff with a memory map of two regions and a framebuffer outside the usable one.
use makopa_os.Common.{none, ◌≡◌, ◌≤◌, ◌↔◌, refl, Bool, false, List, [], ◌∷◌, ok, arith}
use makopa_os.Boot.{BootHandoffV1, MemoryRegionV1, handoff_magic, max_memory_regions, same_bytes}
use makopa_os.Boot.Validate.{
  validate_handoff, validate_handoff_header, validate_header, validate_framebuffer_shape,
  validate_regions, overlaps_usable, region_end,
}
use makopa_os.Boot.Ranges.{
  LaidOut, AvoidsUsable, validate_regions_iff, overlaps_usable_iff, validate_handoff_header_lem,
  validate_handoff_protects,
}

abbrev two_regions : List MemoryRegionV1
two_regions =
    record { physical_start = 0; page_count = 16; kind = 2; attributes = 0 }
    ∷ record { physical_start = 1048576; page_count = 4; kind = 1; attributes = 0 }
    ∷ []

abbrev handoff : BootHandoffV1
handoff = record {
  header = record {
    magic = handoff_magic;
    abi_major = 1;
    abi_minor = 0;
    header_size = 32;
    handoff_size = 88;
    flags = 1;
    reserved = 0;
  };
  memory_regions_address = 8192;
  memory_region_count = 2;
  memory_region_entry_size = 24;
  framebuffer = record {
    physical_start = 4194304;
    byte_length = 4096;
    width = 30;
    height = 30;
    stride_pixels = 32;
    pixel_format = 2;
    reserved = 0;
  };
}

validate_regions_iff_example :
    (validate_regions none none two_regions ≡ ok tt) ↔ LaidOut 0 two_regions
validate_regions_iff_example = validate_regions_iff two_regions

validate_handoff_header_lem_example : 2 ≤ max_memory_regions
unfolding validate_handoff_header validate_header validate_framebuffer_shape same_bytes
validate_handoff_header_lem_example = (validate_handoff_header_lem handoff 2 refl).2

validate_handoff_protects_example : AvoidsUsable 4096 4184 two_regions
unfolding validate_handoff validate_handoff_header validate_header validate_framebuffer_shape
    same_bytes validate_regions overlaps_usable region_end
validate_handoff_protects_example = (validate_handoff_protects handoff 4096 two_regions 8192 refl).1

two_regions-LaidOut : LaidOut 0 two_regions
two_regions-LaidOut = ground arith

low_range_overlaps :
    ((b : Bool) × (overlaps_usable 4096 4184 two_regions ≡ ok b))
    × ((overlaps_usable 4096 4184 two_regions ≡ ok false) ↔ AvoidsUsable 4096 4184 two_regions)
low_range_overlaps = overlaps_usable_iff 4096 4184 0 two_regions two_regions-LaidOut
