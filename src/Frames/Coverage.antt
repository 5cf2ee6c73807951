-- ===== src/Frames/Coverage.antt =====
-- What `initialize` makes of a memory map.
use makopa_os.Common.{
  ℕ, ◌≤◌, ◌≡◌, refl, ◌||◌, false, Option, none, some, List, [], ◌∷◌, arith, any, ok, err, inl, inr,
  subst, sym, ◌∙◌, length, Result-cases,
}
use makopa_os.Boot.{MemoryRegionV1}
use makopa_os.Boot.Validate.{below_some}
use makopa_os.Frames.{Extent, FrameAllocator, new, max_frame_extents}
use makopa_os.Frames.Extents.{limit, IsFrame, IsRun, Separated, has_frame}
use makopa_os.Frames.Allocation.{IsSound}
use makopa_os.Frames.Initialization.{
  InitError, fill_region, fill, initialize, count_extents, validate_and_count_extents, counted,
}
use makopa_os.Frames.Filling.{
  offers, IsGrown, region_run, usable_end, grown_lem, fill_region-managed, fill_region-free,
}

-- What one round of `count_extents` has checked.
count_extents_round :
    (ps pe previous : Option ℕ) (c n : ℕ) (r : MemoryRegionV1) (rs : List MemoryRegionV1)
    → count_extents ps pe previous c (r ∷ rs) ≡ ok n
    → IsRun (region_run r)
      × (below_some r.physical_start pe ≡ false)
      × (c' : ℕ) × (counted previous c r ≡ ok c')
      × (count_extents (some r.physical_start) (some (limit (region_run r))) (usable_end r) c' rs
          ≡ ok n)
unfolding count_extents
count_extents_round ps pe previous c n r rs e = elim (Result-cases (counted previous c r)) [
  | inl (c', k) ↦ (ground arith, ground arith, c', k, ground arith)
  | inr (x, bad) ↦ absurd (ground arith)
]

count_extents_bound :
    (ps pe previous : Option ℕ) (c n : ℕ) (rs : List MemoryRegionV1)
    → c ≤ max_frame_extents
    → count_extents ps pe previous c rs ≡ ok n
    → n ≤ max_frame_extents
count_extents_bound ps pe previous c n [] h e = unfold count_extents in ground arith
count_extents_bound ps pe previous c n (r ∷ rs) h e =
    let (run, below, c', k, next) = count_extents_round ps pe previous c n r rs e in
    count_extents_bound (some r.physical_start) (some (limit (region_run r))) (usable_end r) c' n rs
      (ground arith) next

count_extents_at :
    (ps pe previous : Option ℕ) (n c : ℕ) (rs : List MemoryRegionV1) (es es' : List Extent)
    → es ≡ es'
    → length es' ≡ c
    → count_extents ps pe previous c rs ≡ ok n
    → count_extents ps pe previous (length es) rs ≡ ok n
count_extents_at ps pe previous n c rs es es' p q e = rw (p, q) e

fill_lem :
    (low : ℕ) (ps pe previous : Option ℕ) (n : ℕ) (a : FrameAllocator) (rs : List MemoryRegionV1)
    → a.free ≡ a.managed
    → IsGrown low previous a.managed
    → ((start : ℕ) → below_some start pe ≡ false → low ≤ start)
    → count_extents ps pe previous (length a.managed) rs ≡ ok n
    → ((fill a rs).free ≡ (fill a rs).managed)
      × Separated 0 (fill a rs).managed
      × (length (fill a rs).managed ≡ n)
      × ((f : ℕ)
          → IsFrame f
          → has_frame (fill a rs).managed f ≡ (has_frame a.managed f || any (offers f) rs))
unfolding fill
fill_lem low ps pe previous n a [] same g after e =
    (same, g.apart, unfold count_extents in ground arith, λ f i. ground arith)
fill_lem low ps pe previous n a (r ∷ rs) same g after e =
    let (run, below, c', k, next) =
      count_extents_round ps pe previous (length a.managed) n r rs e in
    let (grows, counts, frames) = grown_lem low c' previous a.managed r g (after _ below) run k in
    let managed = fill_region-managed a r in
    let (alike, apart, size, covers) =
      fill_lem (limit (region_run r)) (some r.physical_start) (some (limit (region_run r)))
        (usable_end r) n (fill_region a r) rs (fill_region-free a r same ∙ sym managed)
        (subst (IsGrown _ _) (sym managed) grows) (λ start h. ground arith)
        (count_extents_at _ _ _ n c' rs _ _ managed counts next) in
    (alike, apart, size, λ f i. ground (arith, covers f i, frames f i, managed))

-- After `initialize` succeeds, exactly the frames of the usable regions are managed, all of them are
-- free, the allocator is sound, and both arrays hold at most 1024 extents.
pub initialize_lem :
    (a : FrameAllocator) (regions : List MemoryRegionV1)
    → (initialize a regions).1 ≡ ok tt
    → let a' = (initialize a regions).0 in
      IsSound a'
      × ((f : ℕ) → IsFrame f → has_frame a'.managed f ≡ any (offers f) regions)
      × ((f : ℕ) → IsFrame f → has_frame a'.free f ≡ any (offers f) regions)
      × (length a'.managed ≤ max_frame_extents)
      × (length a'.free ≤ max_frame_extents)
unfolding initialize validate_and_count_extents
initialize_lem a regions e = elim (Result-cases (validate_and_count_extents regions)) [
  | inr (x, bad) ↦ absurd (ground arith)
  | inl (n, counts) ↦
      let (alike, apart, size, covers) =
        fill_lem 0 none none none n new regions refl
          (record { apart = tt; ends = tt; merges = λ start k. refl }) (λ start h. omega arith)
          counts in
      let bound = count_extents_bound none none none 0 n regions (omega arith) counts in
      rw (counts, initialize)
        (
          record {
            separated = rw alike apart;
            managed_runs = apart;
            within = λ f i h. rw (← alike) h;
          },
          λ f i. unfold has_frame in covers f i,
          λ f i. rw alike (unfold has_frame in covers f i),
          ground arith,
          ground arith,
        )
]

-- A map that is refused leaves the allocator as it was.
pub initialize_refused :
    (a : FrameAllocator) (regions : List MemoryRegionV1) (x : InitError)
    → (initialize a regions).1 ≡ err x
    → (initialize a regions).0 ≡ a
unfolding initialize
initialize_refused a regions x e = elim (Result-cases (validate_and_count_extents regions)) [
  | inr (y, bad) ↦ rw (bad, initialize)
  | inl (n, counts) ↦ absurd (ground arith)
]
