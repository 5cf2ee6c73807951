-- ===== src/Boot/Ranges.antt =====
-- What a validated handoff guarantees of the memory map and of the ranges that the loader passes on.
use makopa_os.Common.{
  ℕ, ◌+◌, ◌*◌, ◌%◌, ◌<◌, ◌≤◌, ◌≡◌, ◌⊎◌, ◌↔◌, inl, inr, refl, ◌&&◌, Bool, true, false, none, some,
  List, [], ◌∷◌, arith, ltb, ◌==◌, length, ok, u64_mod, All, Result-cases, Bool-cases,
}
use makopa_os.Boot.{
  page_size, max_memory_regions, memory_usable, memory_mmio, struct_alignment, handoff_size_v1,
  region_entry_size_v1, MemoryRegionV1, BootHandoffV1, is_zero,
}
use makopa_os.Boot.Validate.{
  validate_regions, overlaps_usable, validate_handoff, validate_handoff_header, has_framebuffer,
  validate_header, validate_framebuffer_shape,
}

-- The end of a region, as a number without a bound.
abbrev pub limit : MemoryRegionV1 → ℕ
limit r = r.physical_start + r.page_count * page_size

-- Regions from `low` on: whole pages of a known kind, in order, apart, and within 64 bits.
abbrev pub LaidOut : ℕ → List MemoryRegionV1 → Type 0
LaidOut low [] = Unit {0}
LaidOut low (r ∷ rs) =
    (low ≤ r.physical_start)
    × (0 < r.page_count)
    × (r.physical_start % page_size ≡ 0)
    × (r.kind ≤ memory_mmio)
    × (r.attributes ≡ 0)
    × (limit r < u64_mod)
    × LaidOut (limit r) rs

-- The range from `start` to `end` meets no usable region.
abbrev pub AvoidsUsable : ℕ → ℕ → List MemoryRegionV1 → Type 0
AvoidsUsable start end =
    All (λ r. r.kind ≡ memory_usable → (end ≤ r.physical_start) ⊎ (limit r ≤ start))

validate_regions-some :
    (start end : ℕ) (rs : List MemoryRegionV1)
    → start ≤ end
    → (validate_regions (some start) (some end) rs ≡ ok tt) ↔ LaidOut end rs
unfolding validate_regions
validate_regions-some start end [] h = ((λ e. tt), (λ l. refl))
validate_regions-some start end (r ∷ rs) h =
    let (to, from) = validate_regions-some r.physical_start (limit r) rs (omega arith) in
    ((λ e. ground (arith, to)), (λ l. ground (arith, from)))

-- The kernel accepts a memory map exactly when it is laid out: whole pages of known kinds without
-- attributes, in ascending order, apart from each other, within 64 bits.
pub validate_regions_iff :
    (rs : List MemoryRegionV1) → (validate_regions none none rs ≡ ok tt) ↔ LaidOut 0 rs
unfolding validate_regions
validate_regions_iff [] = ((λ e. tt), (λ l. refl))
validate_regions_iff (r ∷ rs) =
    let (to, from) = validate_regions-some r.physical_start (limit r) rs (omega arith) in
    ((λ e. ground (arith, to)), (λ l. ground (arith, from)))

-- On a laid-out map the test always decides, and it finds no overlap exactly when the range avoids
-- every usable region.
pub overlaps_usable_iff :
    (start end low : ℕ) (rs : List MemoryRegionV1)
    → LaidOut low rs
    → ((b : Bool) × (overlaps_usable start end rs ≡ ok b))
      × ((overlaps_usable start end rs ≡ ok false) ↔ AvoidsUsable start end rs)
unfolding overlaps_usable
overlaps_usable_iff start end low [] l = ((false, refl), ((λ e. tt), (λ a. refl)))
overlaps_usable_iff start end low (r ∷ rs) l =
    let ((b, e), (to, from)) = overlaps_usable_iff start end (limit r) rs (ground arith) in
    elim (Bool-cases (r.kind == memory_usable && ltb start (limit r) && ltb r.physical_start end)) [
      | inl meets ↦ ((true, ground arith), ((λ h. ground arith), (λ a. ground arith)))
      | inr misses ↦ ((b, ground arith), ((λ h. ground (arith, to)), (λ a. ground (arith, from))))
    ]

-- Inversion of the parts of `validate_handoff`.
validate_handoff_parts :
    (handoff : BootHandoffV1) (address : ℕ) (regions : List MemoryRegionV1) (pointer : ℕ)
    → validate_handoff handoff address regions pointer ≡ ok tt
    → (validate_handoff_header handoff ≡ ok (length regions))
      × (validate_regions none none regions ≡ ok tt)
      × (overlaps_usable address (address + handoff_size_v1) regions ≡ ok false)
      × (overlaps_usable handoff.memory_regions_address
            (handoff.memory_regions_address + length regions * region_entry_size_v1)
            regions
          ≡ ok false)
      × (has_framebuffer handoff ≡ true
          → overlaps_usable handoff.framebuffer.physical_start
              (handoff.framebuffer.physical_start + handoff.framebuffer.byte_length)
              regions
            ≡ ok false)
      × (address % struct_alignment ≡ 0)
      × (handoff.memory_regions_address ≡ pointer)
unfolding validate_handoff
validate_handoff_parts handoff address regions pointer e = ground arith

framebuffer_shape :
    (handoff : BootHandoffV1)
    → validate_framebuffer_shape handoff ≡ ok tt
    → (has_framebuffer handoff ≡ false → is_zero handoff.framebuffer ≡ true)
      × (has_framebuffer handoff ≡ true
          → (handoff.framebuffer.width ≤ handoff.framebuffer.stride_pixels)
            × (handoff.framebuffer.stride_pixels * handoff.framebuffer.height * 4
                ≤ handoff.framebuffer.byte_length)
            × (handoff.framebuffer.physical_start + handoff.framebuffer.byte_length < u64_mod))
unfolding validate_framebuffer_shape
framebuffer_shape handoff e = ((λ unflagged. ground arith), (λ flagged. ground arith))

-- A header that validates gives a region count between 1 and 1024, a region array that fits the
-- address space, and, where a framebuffer is flagged, one whose rows are as wide as its pixels and
-- whose pixels fit its memory; without the flag the framebuffer is all zero.
pub validate_handoff_header_lem :
    (handoff : BootHandoffV1) (n : ℕ)
    → validate_handoff_header handoff ≡ ok n
    → (n ≡ handoff.memory_region_count)
      × (0 < n)
      × (n ≤ max_memory_regions)
      × (handoff.memory_regions_address + n * region_entry_size_v1 < u64_mod)
      × (has_framebuffer handoff ≡ false → is_zero handoff.framebuffer ≡ true)
      × (has_framebuffer handoff ≡ true
          → (handoff.framebuffer.width ≤ handoff.framebuffer.stride_pixels)
            × (handoff.framebuffer.stride_pixels * handoff.framebuffer.height * 4
                ≤ handoff.framebuffer.byte_length)
            × (handoff.framebuffer.physical_start + handoff.framebuffer.byte_length < u64_mod))
unfolding validate_handoff_header
validate_handoff_header_lem handoff n e = elim (Result-cases (validate_header handoff.header)) [
  | inl (u, checked) ↦ elim (Result-cases (validate_framebuffer_shape handoff)) [
    | inl (v, shaped) ↦
        let shape = framebuffer_shape handoff shaped in
        (ground arith, ground arith, ground arith, ground arith, shape.0, shape.1)
    | inr (x, bad) ↦ absurd (ground arith)
  ]
  | inr (x, bad) ↦ absurd (ground arith)
]

-- After a handoff validates, the memory map is laid out, and the handoff itself, the array of the
-- regions and the framebuffer, where there is one, all lie outside every usable region.
pub validate_handoff_protects :
    (handoff : BootHandoffV1) (address : ℕ) (regions : List MemoryRegionV1) (pointer : ℕ)
    → validate_handoff handoff address regions pointer ≡ ok tt
    → LaidOut 0 regions
      × AvoidsUsable address (address + handoff_size_v1) regions
      × AvoidsUsable pointer (pointer + length regions * region_entry_size_v1) regions
      × (has_framebuffer handoff ≡ true
          → AvoidsUsable handoff.framebuffer.physical_start
              (handoff.framebuffer.physical_start + handoff.framebuffer.byte_length)
              regions)
validate_handoff_protects handoff address regions pointer e =
    let (header, ordered, itself, array, buffer, aligned, same) =
      validate_handoff_parts handoff address regions pointer e in
    let laid = (validate_regions_iff regions).0 ordered in
    (
      laid,
      (overlaps_usable_iff _ _ 0 regions laid).1.0 itself,
      rw (← same) ((overlaps_usable_iff _ _ 0 regions laid).1.0 array),
      λ flagged. (overlaps_usable_iff _ _ 0 regions laid).1.0 (buffer flagged),
    )
