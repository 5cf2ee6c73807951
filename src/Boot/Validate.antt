-- ===== src/Boot/Validate.antt =====
-- crates/boot-contract/src/validate.rs: what the kernel checks of a handoff before it uses it. The
-- address of the region slice (`regions.as_ptr()`) is an argument.
use makopa_os.Common.{
  ℕ, ◌-◌, ◌*◌, ◌%◌, ◌^◌, ◌||◌, ◌&&◌, not, Bool, true, false, Option, none, some, List, [], ◌∷◌, ltb,
  ◌==◌, ◌/=◌, if◌then◌else◌, length, Result, ok, err, ◌>>=◌, ◌>>◌, reject_if, ok_or, checked_add,
  checked_mul, bit_and,
}
use makopa_os.Boot.{
  page_size, max_memory_regions, memory_usable, pixel_format_rgb, pixel_format_bgr,
  framebuffer_present, abi_major_v1, abi_minor_v1, handoff_magic, header_size_v1, handoff_size_v1,
  region_entry_size_v1, struct_alignment, is_known_memory_kind, BootHandoffHeaderV1, MemoryRegionV1,
  is_zero, BootHandoffV1, same_bytes,
}

pub data ValidationError : Type 0 where
  magic abi_major abi_minor header_size handoff_size flags reserved handoff_address :
      ValidationError
  region_address region_count region_entry_size region_slice region_zero_pages : ValidationError
  region_alignment region_overflow region_order region_overlap region_kind : ValidationError
  region_attributes handoff_in_usable_memory region_array_in_usable_memory : ValidationError
  framebuffer_flag framebuffer_fields framebuffer_pixel_format framebuffer_stride : ValidationError
  framebuffer_length framebuffer_overflow framebuffer_in_usable_memory : ValidationError

-- `!FRAMEBUFFER_PRESENT`, on a u32.
abbrev pub unknown_flags : ℕ
unknown_flags = 2 ^ 32 - 1 - framebuffer_present

unfoldable pub validate_header : BootHandoffHeaderV1 → Result ValidationError (Unit {0})
unfolding same_bytes
validate_header h = do
  reject_if (not (same_bytes h.magic handoff_magic)) magic
  reject_if (h.abi_major /= abi_major_v1) abi_major
  reject_if (h.abi_minor /= abi_minor_v1) abi_minor
  reject_if (h.header_size /= header_size_v1) header_size
  reject_if (h.handoff_size /= handoff_size_v1) handoff_size
  reject_if (bit_and h.flags unknown_flags /= 0) flags
  reject_if (h.reserved /= 0) reserved

abbrev pub has_framebuffer : BootHandoffV1 → Bool
has_framebuffer handoff = bit_and handoff.header.flags framebuffer_present /= 0

unfoldable pub validate_framebuffer_shape : BootHandoffV1 → Result ValidationError (Unit {0})
validate_framebuffer_shape handoff =
    let f = handoff.framebuffer in
    if not (has_framebuffer handoff)
    then (if is_zero f then ok tt else err framebuffer_flag)
    else do
      reject_if
          (f.physical_start == 0
            || f.byte_length == 0
            || f.width == 0
            || f.height == 0
            || f.stride_pixels == 0
            || f.reserved /= 0)
          framebuffer_fields
      reject_if (f.pixel_format /= pixel_format_rgb && f.pixel_format /= pixel_format_bgr)
          framebuffer_pixel_format
      reject_if (ltb f.stride_pixels f.width) framebuffer_stride
      pixels ← ok_or (checked_mul f.stride_pixels f.height) framebuffer_overflow
      minimum_length ← ok_or (checked_mul pixels 4) framebuffer_overflow
      reject_if (ltb f.byte_length minimum_length) framebuffer_length
      frame_end ← ok_or (checked_add f.physical_start f.byte_length) framebuffer_overflow
      ok tt

-- `usize` is 64 bits.
unfoldable pub validate_handoff_header : BootHandoffV1 → Result ValidationError ℕ
unfolding validate_header validate_framebuffer_shape
validate_handoff_header handoff = do
  validate_header handoff.header
  reject_if (handoff.memory_region_count == 0 || ltb max_memory_regions handoff.memory_region_count)
      region_count
  reject_if
      (handoff.memory_regions_address == 0
        || handoff.memory_regions_address % struct_alignment /= 0)
      region_address
  reject_if (handoff.memory_region_entry_size /= region_entry_size_v1) region_entry_size
  region_bytes ←
      ok_or (checked_mul handoff.memory_region_count region_entry_size_v1) region_overflow
  array_end ← ok_or (checked_add handoff.memory_regions_address region_bytes) region_overflow
  validate_framebuffer_shape handoff
  ok handoff.memory_region_count

unfoldable pub region_end : MemoryRegionV1 → Result ValidationError ℕ
region_end r = do
  bytes ← ok_or (checked_mul r.page_count page_size) region_overflow
  ok_or (checked_add r.physical_start bytes) region_overflow

-- `previous.is_some_and(|p| value < p)`.
abbrev pub below_some : ℕ → Option ℕ → Bool
below_some value none = false
below_some value (some p) = ltb value p

-- The loop over the regions, with the previous start and end.
unfoldable pub validate_regions :
    Option ℕ → Option ℕ → List MemoryRegionV1 → Result ValidationError (Unit {0})
unfolding region_end
validate_regions previous_start previous_end [] = ok tt
validate_regions previous_start previous_end (r ∷ rs) =
    let rest = λ (end : ℕ). validate_regions (some r.physical_start) (some end) rs in
    do
      reject_if (r.page_count == 0) region_zero_pages
      reject_if (r.physical_start % page_size /= 0) region_alignment
      reject_if (not (is_known_memory_kind r.kind)) region_kind
      reject_if (r.attributes /= 0) region_attributes
      end ← region_end r
      reject_if (below_some r.physical_start previous_start) region_order
      reject_if (below_some r.physical_start previous_end) region_overlap
      rest end

unfoldable pub overlaps_usable : ℕ → ℕ → List MemoryRegionV1 → Result ValidationError Bool
unfolding region_end
overlaps_usable start end [] = ok false
overlaps_usable start end (r ∷ rs) =
    let rest = overlaps_usable start end rs in
    if r.kind /= memory_usable then rest else do
      limit ← region_end r
      (if ltb start limit && ltb r.physical_start end then ok true else rest)

-- `if overlaps_usable(..)? { return Err(error); }`
abbrev pub reject_if_usable :
    ℕ → ℕ → List MemoryRegionV1 → ValidationError → Result ValidationError (Unit {0})
reject_if_usable start end regions error =
    overlaps_usable start end regions >>= λ b. reject_if b error

unfoldable pub validate_handoff :
    BootHandoffV1 → ℕ → List MemoryRegionV1 → ℕ → Result ValidationError (Unit {0})
validate_handoff handoff address regions regions_pointer = do
  count ← validate_handoff_header handoff
  reject_if (address == 0 || address % struct_alignment /= 0) handoff_address
  handoff_end ← ok_or (checked_add address handoff_size_v1) handoff_address
  reject_if (length regions /= count || handoff.memory_regions_address /= regions_pointer)
      region_slice
  validate_regions none none regions
  reject_if_usable address handoff_end regions handoff_in_usable_memory
  array_end ←
      ok_or (checked_add handoff.memory_regions_address (count * region_entry_size_v1))
        region_overflow
  reject_if_usable handoff.memory_regions_address array_end regions region_array_in_usable_memory
  (if has_framebuffer handoff
      then (ok_or (checked_add handoff.framebuffer.physical_start handoff.framebuffer.byte_length)
            framebuffer_overflow
          >>= λ framebuffer_end.
              reject_if_usable handoff.framebuffer.physical_start framebuffer_end regions
                framebuffer_in_usable_memory)
      else ok tt)
