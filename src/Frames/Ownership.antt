-- ===== src/Frames/Ownership.antt =====
-- Runs of the allocator, with the frames that it has handed out.
use makopa_os.Common.{
  ℕ, ◌+◌, ◌-◌, ◌≡◌, ◌≢◌, refl, Bool, List, [], ◌∷◌, arith, ◌==◌, if◌then◌else◌, any, ok, err, inl,
  inr, ℕ_discrete, ◌∙◌, ap, Result-cases, count,
}
use makopa_os.Boot.{MemoryRegionV1}
use makopa_os.Frames.{FrameAllocator, allocate_frame, free_frame}
use makopa_os.Frames.Initialization.{initialize}
use makopa_os.Frames.Filling.{offers}
use makopa_os.Frames.Coverage.{initialize_lem}
use makopa_os.Frames.Extents.{IsFrame, has_frame}
use makopa_os.Frames.Allocation.{IsSound, allocate_frame_taken, allocate_frame_exhausted}
use makopa_os.Frames.Release.{free_frame_lem, free_frame_refused}

pub data Call : Type 0 where
  allocate : Call
  release : ℕ → Call

-- The allocator with the frames that were handed out and have not been taken back.
pub record Held : Type 0 where
  pub allocator : FrameAllocator
  pub out : List ℕ

abbrev pub remove_first : ℕ → List ℕ → List ℕ
remove_first f [] = []
remove_first f (g ∷ gs) = if g == f then gs else g ∷ remove_first f gs

abbrev pub times : ℕ → List ℕ → ℕ
times f = count (λ g. g == f)

unfoldable pub step : Held → Call → Held
step h allocate =
    let (a', result) = allocate_frame h.allocator in
    elim result [
      | ok f ↦ record { allocator = a'; out = f ∷ h.out }
      | err e ↦ record h { allocator = a' }
    ]
step h (release f) =
    let (a', result) = free_frame h.allocator f in
    elim result [
      | ok u ↦ record { allocator = a'; out = remove_first f h.out }
      | err e ↦ record h { allocator = a' }
    ]

unfoldable pub run : Held → List Call → Held
unfolding step
run h [] = h
run h (c ∷ cs) = run (step h c) cs

abbrev pub as_number : Bool → ℕ
as_number b = if b then 1 else 0

-- Each managed frame is either free or handed out exactly once, and no other frame is either.
pub record IsAccounted (h : Held) : Type 0 where
  pub sound : IsSound h.allocator
  pub frames :
      (f : ℕ)
      → IsFrame f
      → as_number (has_frame h.allocator.free f) + times f h.out
        ≡ as_number (has_frame h.allocator.managed f)

times-remove_first_self : (f : ℕ) (gs : List ℕ) → times f (remove_first f gs) ≡ times f gs - 1
times-remove_first_self f [] = refl
times-remove_first_self f (g ∷ gs) = ground (arith, times-remove_first_self f gs)

times-remove_first_ne : (f g : ℕ) (gs : List ℕ) → g ≢ f → times g (remove_first f gs) ≡ times g gs
times-remove_first_ne f g [] n = refl
times-remove_first_ne f g (x ∷ gs) n = ground (arith, times-remove_first_ne f g gs n)

allocate_step :
    (h : Held) (f : ℕ)
    → IsAccounted h
    → (allocate_frame h.allocator).1 ≡ ok f
    → IsAccounted (record { allocator = (allocate_frame h.allocator).0; out = f ∷ h.out })
allocate_step h f i e =
    let (was_free, lowest, taken, kept, sound) = allocate_frame_taken h.allocator f i.sound e in
    record {
      sound = sound;
      frames = λ g k. elim (ℕ_discrete g f) [
        | yes same ↦ ground (arith, i.frames g k, taken g k)
        | no other ↦ ground (arith, i.frames g k, taken g k)
      ];
    }

release_step :
    (h : Held) (f : ℕ)
    → IsAccounted h
    → (free_frame h.allocator f).1 ≡ ok tt
    → IsAccounted (record { allocator = (free_frame h.allocator f).0; out = remove_first f h.out })
release_step h f i e =
    let (aligned, owned, was_out, takes, kept, sound) = free_frame_lem h.allocator f i.sound e in
    record {
      sound = sound;
      frames = λ g k. elim (ℕ_discrete g f) [
        | yes same ↦ ground (arith, i.frames g k, takes g k, times-remove_first_self g h.out)
        | no other ↦ ground (arith, i.frames g k, takes g k, times-remove_first_ne f g h.out other)
      ];
    }

step-IsAccounted : (h : Held) (c : Call) → IsAccounted h → IsAccounted (step h c)
unfolding step
step-IsAccounted h allocate i = elim (Result-cases (allocate_frame h.allocator).1) [
  | inl (f, e) ↦ rw (e, step) (allocate_step h f i e)
  | inr (x, e) ↦ rw (e, step, (allocate_frame_exhausted h.allocator x i.sound e).1) i
]
step-IsAccounted h (release f) i = elim (Result-cases (free_frame h.allocator f).1) [
  | inl (u, e) ↦ rw (e, step) (release_step h f i e)
  | inr (x, e) ↦ rw (e, step, free_frame_refused h.allocator f x e) i
]

step_managed :
    (h : Held) (c : Call) → IsAccounted h → (step h c).allocator.managed ≡ h.allocator.managed
unfolding step
step_managed h allocate i = elim (Result-cases (allocate_frame h.allocator).1) [
  | inl (f, e) ↦
      let (was_free, lowest, taken, kept, sound) = allocate_frame_taken h.allocator f i.sound e in
      rw (e, step) kept
  | inr (x, e) ↦
      rw (e, step) (ap (λ a. a.managed) (allocate_frame_exhausted h.allocator x i.sound e).1)
]
step_managed h (release f) i = elim (Result-cases (free_frame h.allocator f).1) [
  | inl (u, e) ↦
      let (aligned, owned, was_out, takes, kept, sound) = free_frame_lem h.allocator f i.sound e in
      rw (e, step) kept
  | inr (x, e) ↦ rw (e, step) (ap (λ a. a.managed) (free_frame_refused h.allocator f x e))
]

run_lem :
    (h : Held) (cs : List Call)
    → IsAccounted h
    → IsAccounted (run h cs) × ((run h cs).allocator.managed ≡ h.allocator.managed)
unfolding run
run_lem h [] i = (i, refl)
run_lem h (c ∷ cs) i =
    let (accounted, kept) = run_lem (step h c) cs (step-IsAccounted h c i) in
    (accounted, kept ∙ step_managed h c i)

-- The allocator after `initialize`, with nothing handed out.
abbrev pub started : FrameAllocator → List MemoryRegionV1 → Held
started a regions = record { allocator = (initialize a regions).0; out = [] }

-- After `initialize` accepts a memory map, over any run of allocations and releases, whatever frames
-- are asked back: a frame of a usable region is either free or handed out, never both, and to one
-- holder only; any other frame is neither.
pub initialize-run :
    (a : FrameAllocator) (regions : List MemoryRegionV1) (cs : List Call) (f : ℕ)
    → (initialize a regions).1 ≡ ok tt
    → IsFrame f
    → as_number (has_frame (run (started a regions) cs).allocator.free f)
        + times f (run (started a regions) cs).out
      ≡ as_number (any (offers f) regions)
initialize-run a regions cs f e i =
    let (sound, managed, free, n, m) = initialize_lem a regions e in
    let (accounted, kept) =
      run_lem (started a regions) cs
        (record { sound = sound; frames = λ g k. ground (arith, managed g k, free g k) }) in
    accounted.frames f i ∙ ap as_number (ap (λ es. has_frame es f) kept ∙ managed f i)
