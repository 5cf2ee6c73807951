-- ===== src/Frames/Filling.antt =====
-- One round of the filling loop of `initialize`.
use makopa_os.Common.{
  ℕ, ◌+◌, ◌*◌, ◌<◌, ◌≤◌, ◌≡◌, refl, ◌||◌, ◌&&◌, Bool, true, false, Option, none, some, List, [],
  ◌∷◌, ◌++◌, arith, leb, ◌==◌, ◌/=◌, if◌then◌else◌, ok, inl, inr, subst, sym, ◌∙◌, length,
  Bool-cases, length-append,
}
use makopa_os.Boot.{MemoryRegionV1, page_size, memory_usable}
use makopa_os.Frames.{Extent, FrameAllocator, extent_end}
use makopa_os.Frames.Extents.{limit, IsFrame, IsRun, Separated, has_frame, contains_frame_run}
use makopa_os.Frames.Initialization.{can_merge, grow_last, fill_region, counted, is_some_value}
use makopa_os.Frames.Growth.{
  EndsBy, EndsBy-mono, Separated-append, Separated-grow_last, EndsBy-append, EndsBy-grow_last,
  can_merge-append, can_merge-grow_last, has_frame-append, has_frame-grow_last, length-grow_last,
}

-- The frames of a region, where it is usable.
abbrev pub offers : ℕ → MemoryRegionV1 → Bool
offers f r =
    r.kind == memory_usable
    && leb r.physical_start f
    && leb (f + page_size) (r.physical_start + r.page_count * page_size)

-- The state of the filling loop between two regions: `low` is where the next region may start.
pub record IsGrown (low : ℕ) (previous_usable_end : Option ℕ) (es : List Extent) : Type 0 where
  pub apart : Separated 0 es
  pub ends : EndsBy low es
  pub merges :
      (start : ℕ) → low ≤ start → can_merge es start ≡ is_some_value previous_usable_end start

can_merge_beyond :
    (low start : ℕ) (es : List Extent) → EndsBy low es → low < start → can_merge es start ≡ false
unfolding extent_end
can_merge_beyond low start [] b h = refl
can_merge_beyond low start (e ∷ []) b h = ground arith
can_merge_beyond low start (e ∷ e' ∷ es) b h = can_merge_beyond low start (e' ∷ es) b.1 h

IsGrown-skip :
    (low end : ℕ) (previous : Option ℕ) (es : List Extent)
    → IsGrown low previous es
    → low < end
    → IsGrown end none es
IsGrown-skip low end previous es g h = record {
  apart = g.apart;
  ends = EndsBy-mono low end es (omega arith) g.ends;
  merges = λ start k. can_merge_beyond low start es g.ends (omega arith);
}

IsGrown-append :
    (low start pages : ℕ) (previous : Option ℕ) (es : List Extent)
    → IsGrown low previous es
    → low ≤ start
    → IsRun (record { physical_start = start; page_count = pages })
    → can_merge es start ≡ false
    → IsGrown
        (start + pages * page_size)
        (some (start + pages * page_size))
        (es ++ record { physical_start = start; page_count = pages } ∷ [])
IsGrown-append low start pages previous es g h run m = record {
  apart =
      Separated-append 0 start pages es g.apart (EndsBy-mono low start es h g.ends) (omega arith) m
        run;
  ends = EndsBy-append _ _ es (EndsBy-mono low _ es (omega arith) g.ends) (omega arith);
  merges = λ start' k. can_merge-append _ es start' ∙ unfold extent_end in ground arith;
}

IsGrown-grow_last :
    (low start pages : ℕ) (previous : Option ℕ) (es : List Extent)
    → IsGrown low previous es
    → low ≤ start
    → IsRun (record { physical_start = start; page_count = pages })
    → can_merge es start ≡ true
    → IsGrown (start + pages * page_size) (some (start + pages * page_size)) (grow_last es pages)
IsGrown-grow_last low start pages previous es g h run m = record {
  apart = Separated-grow_last 0 start pages es g.apart m run.2;
  ends = EndsBy-grow_last low _ start pages es (EndsBy-mono low start es h g.ends) m (omega arith);
  merges = λ start' k. can_merge-grow_last 0 start pages es start' g.apart m run.2;
}

-- What `fill_region` does to the managed extents.
abbrev pub grown : List Extent → MemoryRegionV1 → List Extent
grown es r =
    if r.kind /= memory_usable
    then es
    else if can_merge es r.physical_start
    then grow_last es r.page_count
    else es ++ record { physical_start = r.physical_start; page_count = r.page_count } ∷ []

pub fill_region-managed :
    (a : FrameAllocator) (r : MemoryRegionV1) → (fill_region a r).managed ≡ grown a.managed r
unfolding fill_region
fill_region-managed a r = ground arith

pub fill_region-free :
    (a : FrameAllocator) (r : MemoryRegionV1)
    → a.free ≡ a.managed
    → (fill_region a r).free ≡ grown a.managed r
unfolding fill_region
fill_region-free a r same = ground arith

abbrev pub region_run : MemoryRegionV1 → Extent
region_run r = record { physical_start = r.physical_start; page_count = r.page_count }

-- `previous_usable_end` after a region.
abbrev pub usable_end : MemoryRegionV1 → Option ℕ
usable_end r = if r.kind == memory_usable then some (limit (region_run r)) else none

IsGrown-at :
    (low : ℕ) (previous previous' : Option ℕ) (es es' : List Extent)
    → previous ≡ previous'
    → es ≡ es'
    → IsGrown low previous' es'
    → IsGrown low previous es
IsGrown-at low previous previous' es es' p q g =
    subst (λ x. IsGrown low x es) (sym p) (subst (IsGrown low previous') (sym q) g)

-- One region: the state goes on, the count is right, and the frames of the region are added.
pub grown_lem :
    (low c : ℕ) (previous : Option ℕ) (es : List Extent) (r : MemoryRegionV1)
    → IsGrown low previous es
    → low ≤ r.physical_start
    → IsRun (region_run r)
    → counted previous (length es) r ≡ ok c
    → IsGrown (limit (region_run r)) (usable_end r) (grown es r)
      × (length (grown es r) ≡ c)
      × ((f : ℕ) → IsFrame f → has_frame (grown es r) f ≡ (has_frame es f || offers f r))
grown_lem low c previous es r g h run e = elim (Bool-cases (r.kind == memory_usable)) [
  | inl usable ↦ elim (Bool-cases (can_merge es r.physical_start)) [
    | inl meets ↦
        let next = IsGrown-grow_last low r.physical_start r.page_count previous es g h run meets in
        (
          IsGrown-at _ _ _ _ _ (ground arith) (ground arith) next,
          ground (arith, length-grow_last r.page_count es, g.merges r.physical_start h),
          λ f i. ground (
            arith,
            has_frame-grow_last 0 r.physical_start r.page_count es f g.apart i meets run.2,
          ),
        )
    | inr apart ↦
        let next = IsGrown-append low r.physical_start r.page_count previous es g h run apart in
        (
          IsGrown-at _ _ _ _ _ (ground arith) (ground arith) next,
          ground (arith, length-append es (region_run r ∷ []), g.merges r.physical_start h),
          λ f i. ground (
            arith,
            has_frame-append (region_run r) es f,
            contains_frame_run (region_run r) f run.2,
          ),
        )
  ]
  | inr other ↦
      let next = IsGrown-skip low (limit (region_run r)) previous es g (omega (arith, run.1)) in
      (IsGrown-at _ _ _ _ _ (ground arith) (ground arith) next, ground arith, λ f i. ground arith)
]
