-- ===== src/Frames/Allocation.antt =====
-- `FrameAllocator::allocate_frame` and the free set.
use makopa_os.Common.{
  ℕ, ◌⊎◌, ap, Result-cases, ◌+◌, ◌-◌, ◌≤◌, ◌≡◌, ◌≢◌, ◌&&◌, true, false, List, ◌∷◌, arith, ◌/=◌, ok,
  err, inl, inr, List-cases, ℕ_discrete, subst, sym, ◌∙◌, and_left, ok_injective,
}
use makopa_os.Boot.{page_size}
use makopa_os.Frames.{Extent, FrameAllocator, allocate_frame, AllocateError, exhausted}
use makopa_os.Frames.Extents.{
  limit, IsFrame, Separated, has_frame, contains_frame_run, has_frame_below, Separated-mono,
}

-- The invariant of an allocator: its free extents are separated runs of frames, all of them managed.
pub record IsSound (a : FrameAllocator) : Type 0 where
  pub separated : Separated 0 a.free
  pub managed_runs : Separated 0 a.managed
  pub within : (f : ℕ) → IsFrame f → has_frame a.free f ≡ true → has_frame a.managed f ≡ true

-- The free list without its first frame.
first_taken :
    (e : Extent) (rest : List Extent) (f : ℕ)
    → Separated 0 (e ∷ rest)
    → IsFrame f
    → e.page_count ≢ 1
    → has_frame
        (record { physical_start = e.physical_start + page_size; page_count = e.page_count - 1 }
          ∷ rest)
        f
      ≡ (has_frame (e ∷ rest) f && f /= e.physical_start)
unfolding has_frame
first_taken e rest f s i n = ground (
  arith,
  contains_frame_run e f s.1.2,
  contains_frame_run
      (record { physical_start = e.physical_start + page_size; page_count = e.page_count - 1 }) f,
  has_frame_below (limit e + 1) rest f s.2,
)

last_taken :
    (e : Extent) (rest : List Extent) (f : ℕ)
    → Separated 0 (e ∷ rest)
    → IsFrame f
    → e.page_count ≡ 1
    → has_frame rest f ≡ (has_frame (e ∷ rest) f && f /= e.physical_start)
unfolding has_frame
last_taken e rest f s i n =
    ground (arith, contains_frame_run e f s.1.2, has_frame_below (limit e + 1) rest f s.2)

-- Every frame of a separated list lies at or above the first start.
lowest_first :
    (e : Extent) (rest : List Extent) (f : ℕ)
    → Separated 0 (e ∷ rest)
    → has_frame (e ∷ rest) f ≡ true
    → e.physical_start ≤ f
unfolding has_frame
lowest_first e rest f s h =
    ground (arith, contains_frame_run e f s.1.2, has_frame_below (limit e + 1) rest f s.2)

first_held :
    (e : Extent) (rest : List Extent)
    → Separated 0 (e ∷ rest)
    → has_frame (e ∷ rest) e.physical_start ≡ true
unfolding has_frame
first_held e rest s = ground (arith, contains_frame_run e e.physical_start s.1.2)

-- The result of an allocation from a list that is not empty.
allocate_frame_first :
    (a : FrameAllocator) (e : Extent) (rest : List Extent)
    → a.free ≡ e ∷ rest
    → Separated 0 (e ∷ rest)
    → ((allocate_frame a).1 ≡ ok e.physical_start)
      × (Separated 0 (allocate_frame a).0.free)
      × ((allocate_frame a).0.managed ≡ a.managed)
      × ((f : ℕ)
          → IsFrame f
          → has_frame (allocate_frame a).0.free f
            ≡ (has_frame (e ∷ rest) f && f /= e.physical_start))
unfolding allocate_frame
allocate_frame_first a e rest shape s = elim (ℕ_discrete e.page_count 1) [
  | yes one ↦ (
    ground arith,
    ground (arith, Separated-mono 0 (limit e + 1) rest),
    ground arith,
    λ f i. ground (arith, last_taken e rest f s i one),
  )
  | no more ↦ (
    ground arith,
    ground arith,
    ground arith,
    λ f i. ground (arith, first_taken e rest f s i more),
  )
]

-- A frame that has been handed out.
pub allocate_frame_taken :
    (a : FrameAllocator) (f : ℕ)
    → IsSound a
    → (allocate_frame a).1 ≡ ok f
    → let a' = (allocate_frame a).0 in
      (has_frame a.free f ≡ true)
      × ((g : ℕ) → has_frame a.free g ≡ true → f ≤ g)
      × ((g : ℕ) → IsFrame g → has_frame a'.free g ≡ (has_frame a.free g && g /= f))
      × (a'.managed ≡ a.managed)
      × IsSound a'
allocate_frame_taken a f s e = elim (List-cases a.free) [
  | inl empty ↦ absurd (unfold allocate_frame in ground arith)
  | inr (x, rest, shape) ↦
      let apart₀ = subst (Separated 0) shape s.separated in
      let (result, apart, kept, frames) = allocate_frame_first a x rest shape apart₀ in
      let first : f ≡ x.physical_start = ok_injective (sym e ∙ result) in
      (
        rw (shape, first) (first_held x rest apart₀),
        λ g h. rw first (lowest_first x rest g apart₀ (rw shape at h)),
        λ g i. simp (shape, first) (frames g i),
        kept,
        record {
          separated = apart;
          managed_runs = rw kept s.managed_runs;
          within = λ g i h. rw kept (s.within g i (rw shape (and_left _ _ (sym (frames g i) ∙ h))));
        },
      )
]

-- It fails exactly when no frame is free, and then changes nothing.
pub allocate_frame_exhausted :
    (a : FrameAllocator) (x : AllocateError)
    → IsSound a
    → (allocate_frame a).1 ≡ err x
    → (x ≡ exhausted) × ((allocate_frame a).0 ≡ a) × ((g : ℕ) → has_frame a.free g ≡ false)
unfolding allocate_frame has_frame
allocate_frame_exhausted a x s e = elim (List-cases a.free) [
  | inl empty ↦ (ground arith, ground arith, λ g. ground arith)
  | inr (y, rest, shape) ↦
      absurd (
        ground (arith, allocate_frame_first a y rest shape (subst (Separated 0) shape s.separated)))
]

-- A sound allocator that has a free frame hands out the lowest one: that frame leaves the free set,
-- every other frame stays, the managed set does not change, and the allocator stays sound. One that
-- has none answers that it is exhausted, and does not change.
pub allocate_frame_lem :
    (a : FrameAllocator)
    → IsSound a
    → let a' = (allocate_frame a).0 in
      ((f : ℕ) × ((allocate_frame a).1 ≡ ok f)
        × (has_frame a.free f ≡ true)
        × ((g : ℕ) → has_frame a.free g ≡ true → f ≤ g)
        × ((g : ℕ) → IsFrame g → has_frame a'.free g ≡ (has_frame a.free g && g /= f))
        × (a'.managed ≡ a.managed)
        × IsSound a')
      ⊎ (((allocate_frame a).1 ≡ err exhausted) × (a' ≡ a) × ((g : ℕ) → has_frame a.free g ≡ false))
allocate_frame_lem a s = elim (Result-cases (allocate_frame a).1) [
  | inl (f, good) ↦
      let (held, lowest, frames, kept, sound) = allocate_frame_taken a f s good in
      inl (f, good, held, lowest, frames, kept, sound)
  | inr (x, bad) ↦
      let (full, same, nothing) = allocate_frame_exhausted a x s bad in
      inr (bad ∙ ap (λ (y : AllocateError). err y) full, same, nothing)
]
