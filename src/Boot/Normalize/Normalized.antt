-- ===== src/Boot/Normalize/Normalized.antt =====
-- The whole of `normalize_memory_regions`, with the required overrides.
use makopa_os.Common.{
  ℕ, ◌%◌, ◌<◌, ◌≤◌, ap, ◌≡◌, ◌||◌, true, none, some, List, [], ◌∷◌, arith, ltb, leb, ◌/=◌, length,
  ok, u64_mod, Bool-cases, Result-cases, inl, inr, rev_append, All, length-rev_append,
}
use makopa_os.Boot.{page_size, max_memory_regions, MemoryRegionV1}
use makopa_os.Boot.Ranges.{LaidOut, limit, validate_regions_iff}
use makopa_os.Boot.Validate.{validate_regions}
use makopa_os.Boot.Normalize.{
  RegionWriter, SourceMemoryRegion, MemoryRegionOverride, region_end, covered_to,
  validate_required_overrides, normalize_memory_regions, normalize_sources, validate_overrides,
}
use makopa_os.Boot.Normalize.Writer.{covers, kind_at, LaidOut-rev_append, kind_at-rev_append}
use makopa_os.Boot.Normalize.Overrides.{
  OverridesFrom, override_at, override_end, validate_overrides_lem, override_ends,
}
use makopa_os.Boot.Normalize.Sources.{source_at, overlay, normalize_sources_lem}

limit_ends :
    (r : MemoryRegionV1)
    → 0 < r.page_count
    → r.physical_start % page_size ≡ 0
    → limit r < u64_mod
    → region_end r.physical_start r.page_count ≡ ok (limit r)
unfolding region_end
limit_ends r h₁ h₂ h₃ = ground arith

-- The addresses from the cursor to the end all have the kind.
abbrev IsFilled : ℕ → ℕ → ℕ → List MemoryRegionV1 → Type 0
IsFilled kind end cursor rs = (p : ℕ) → cursor ≤ p → p < end → kind_at rs p ≡ some kind

covered_to_lem :
    (kind end cursor low : ℕ) (rs : List MemoryRegionV1)
    → LaidOut low rs
    → cursor ≤ end
    → covered_to kind end cursor rs ≡ ok end
    → IsFilled kind end cursor rs
unfolding covered_to
covered_to_lem kind end cursor low [] l h e p above below = absurd (ground arith)
covered_to_lem kind end cursor low (r ∷ rs) l h e p above below =
    let ends = limit_ends r l.1 l.2 l.5 in
    elim (Bool-cases (leb (limit r) cursor)) [
      | inl skipped ↦
          let rest =
            covered_to_lem kind end cursor (limit r) rs l.6 h (ground arith) p above below in
          ground arith
      | inr reached ↦ elim (Bool-cases (ltb cursor r.physical_start || r.kind /= kind)) [
        | inl other ↦ absurd (ground arith)
        | inr same ↦ elim (Bool-cases (leb end (limit r))) [
          | inl last ↦ ground arith
          | inr more ↦ elim (Bool-cases (ltb p (limit r))) [
            | inl here ↦ ground arith
            | inr beyond ↦
                let rest =
                  covered_to_lem kind end (limit r) (limit r) rs l.6 (ground arith) (ground arith) p
                    (ground arith) below in
                ground arith
          ]
        ]
      ]
    ]

-- Every required override has its kind at all its addresses.
abbrev pub RequiredIn : List MemoryRegionV1 → List MemoryRegionOverride → Type 0
RequiredIn rs = All (λ o.
    o.require_full_coverage ≡ true
    → (p : ℕ) → covers o.physical_start o.page_count p ≡ true
    → kind_at rs p ≡ some o.kind)

validate_required_overrides_lem :
    (low low' : ℕ) (os : List MemoryRegionOverride) (rs : List MemoryRegionV1)
    → OverridesFrom low os
    → LaidOut low' rs
    → validate_required_overrides os rs ≡ ok tt
    → RequiredIn rs os
unfolding validate_required_overrides
validate_required_overrides_lem low low' [] rs l m e = tt
validate_required_overrides_lem low low' (o ∷ os) rs l m e =
    elim (Bool-cases o.require_full_coverage) [
      | inr optional ↦ (
        (λ q. absurd (ground arith)),
        validate_required_overrides_lem (override_end o) low' os rs l.5 m (ground arith),
      )
      | inl required ↦
          let ends = override_ends o (ground (arith, l)) in
          elim (Result-cases (covered_to o.kind (override_end o) o.physical_start rs)) [
            | inr (x, bad) ↦ absurd (ground arith)
            | inl (cursor, found) ↦
                let meets : cursor ≡ override_end o = ground arith in
                (
                  λ q p inside.
                      covered_to_lem o.kind (override_end o) o.physical_start low' rs m
                        (omega arith) (rw meets at found) p (ground arith) (ground arith),
                  validate_required_overrides_lem (override_end o) low' os rs l.5 m (ground arith),
                )
          ]
    ]

-- Inversion of `normalize_memory_regions`.
normalize_parts :
    (sources : List SourceMemoryRegion) (overrides : List MemoryRegionOverride) (capacity : ℕ)
    (rs : List MemoryRegionV1)
    → normalize_memory_regions sources overrides capacity ≡ ok rs
    → (w : RegionWriter) × (validate_overrides none none overrides ≡ ok tt)
      × (normalize_sources none none overrides sources
            (record { written = []; capacity = capacity })
          ≡ ok w)
      × (capacity ≤ max_memory_regions)
      × (0 < length w.written)
      × (rev_append w.written [] ≡ rs)
      × (validate_required_overrides overrides rs ≡ ok tt)
unfolding normalize_memory_regions
normalize_parts sources overrides capacity rs e =
    elim (Result-cases (
      normalize_sources none none overrides sources
        (record { written = []; capacity = capacity }))) [
          | inr (x, bad) ↦ absurd (ground arith)
          | inl (w, made) ↦
              let out : rev_append w.written [] ≡ rs = ground arith in
              (w, ground arith, made, ground arith, ground arith, out, rw (← out) (ground arith))
        ]

-- A normalized memory map is one that the kernel's validation accepts, of at most 1024 regions and
-- of at most the slice's length; it gives every address the kind of the override that holds it, or
-- else of the firmware region, and nothing to an address outside the firmware's regions; and where
-- an override requires full coverage all its addresses have its kind.
pub normalize_memory_regions_lem :
    (sources : List SourceMemoryRegion) (overrides : List MemoryRegionOverride) (capacity : ℕ)
    (rs : List MemoryRegionV1)
    → normalize_memory_regions sources overrides capacity ≡ ok rs
    → (validate_regions none none rs ≡ ok tt)
      × (0 < length rs)
      × (length rs ≤ capacity)
      × (capacity ≤ max_memory_regions)
      × ((p : ℕ) → kind_at rs p ≡ overlay (source_at sources p) (override_at overrides p))
      × RequiredIn rs overrides
normalize_memory_regions_lem sources overrides capacity rs e =
    let (w, checked, made, few, some_written, out, required) =
      normalize_parts sources overrides capacity rs e in
    let ordered = validate_overrides_lem overrides checked in
    let n =
      normalize_sources_lem overrides sources (record { written = []; capacity = capacity }) w
        (record { laid = tt; room = omega arith }) ordered made in
    let laid : LaidOut 0 rs =
      rw (← out) (LaidOut-rev_append n.top w.written [] n.written.laid tt) in
    let same_length : length rs ≡ length w.written =
      omega
        (arith, length-rev_append w.written [], ap (λ (l : List MemoryRegionV1). length l) out) in
    (
      (validate_regions_iff rs).1 laid,
      omega arith,
      ground (arith, n.written.room, n.same),
      few,
      λ p.
          rw (← out)
            (ground (arith, kind_at-rev_append n.top p w.written [] n.written.laid, n.kinds p)),
      validate_required_overrides_lem 0 0 overrides rs ordered laid required,
    )
