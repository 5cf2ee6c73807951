-- ===== src/Frames/Release.antt =====
-- `FrameAllocator::free_frame` and the free set.
use makopa_os.Common.{
  ℕ, ◌+◌, ◌<◌, ◌≡◌, refl, ◌||◌, Bool, true, false, List, [], ◌∷◌, arith, ltb, ◌==◌, u64_mod, ok,
  err, inl, inr, subst, sym, ◌∙◌, length, Bool-cases, Result-cases,
}
use makopa_os.Boot.{page_size}
use makopa_os.Frames.{
  Extent, FrameAllocator, free_frame, freed_list, find_insertion, joins_left, joins_right,
  insert_frame, FreeError,
}
use makopa_os.Frames.Extents.{
  limit, IsFrame, Separated, SeparatedBelow, has_frame, contains_frame_run, has_frame_below,
  has_frame_above,
}
use makopa_os.Frames.Allocation.{IsSound}
use makopa_os.Frames.Gaps.{IsGap, find_insertion-IsGap, StartsAbove, EndsBelow, joined_left}
use makopa_os.Frames.Insertion.{
  Takes, insert_alone, insert_right_of, insert_left_of, insert_between,
}

pub nothing_left : (f : ℕ) → joins_left f [] ≡ ok true → ⊥
unfolding joins_left
nothing_left f e = ground arith

insert_frame-Takes :
    (f : ℕ) (left right : Bool) (free before after free' : List Extent)
    → IsFrame f
    → IsGap f free before after
    → f + page_size < u64_mod
    → joins_left f before ≡ ok left
    → joins_right (f + page_size) after ≡ right
    → insert_frame f left right before after ≡ ok free'
    → Takes f free free'
unfolding insert_frame
insert_frame-Takes f true true free (l ∷ before) (r ∷ after) free' i gap small jl jr e =
    subst (Takes f free) (ground arith) (
      insert_between f free before after l r i gap (joined_left f gap.mark l before gap.low jl)
        (ground arith))
insert_frame-Takes f true false free (l ∷ before) after free' i gap small jl jr e =
    subst (Takes f free) (ground arith) (
      insert_right_of f free before after l i gap small (joined_left f gap.mark l before gap.low jl)
        jr)
insert_frame-Takes f false true free before (r ∷ after) free' i gap small jl jr e =
    subst (Takes f free) (ground arith)
      (insert_left_of f free before after r i gap jl (ground arith))
insert_frame-Takes f true true free [] after free' i gap small jl jr e = absurd (nothing_left f jl)
insert_frame-Takes f true true free (l ∷ before) [] free' i gap small jl jr e = absurd (cc)
insert_frame-Takes f true false free [] after free' i gap small jl jr e = absurd (nothing_left f jl)
insert_frame-Takes f false true free before [] free' i gap small jl jr e = absurd (cc)
insert_frame-Takes f false false free before after free' i gap small jl jr e =
    subst (Takes f free) (ground arith) (insert_alone f free before after i gap small jl jr)

none_before :
    (f m : ℕ) (before : List Extent)
    → SeparatedBelow m before
    → EndsBelow f before
    → has_frame before f ≡ false
unfolding has_frame
none_before f m [] s b = refl
none_before f m (e ∷ before) s b =
    ground (arith, contains_frame_run e f s.1.2, has_frame_above e.physical_start before f s.2)

none_after :
    (f m : ℕ) (after : List Extent)
    → Separated m after
    → StartsAbove f after
    → has_frame after f ≡ false
unfolding has_frame
none_after f m [] s b = refl
none_after f m (e ∷ after) s b =
    ground (arith, contains_frame_run e f s.1.2, has_frame_below (limit e + 1) after f s.2)

-- A frame is in none of the extents on either side of its gap.
gap_is_free :
    (f : ℕ) (free before after : List Extent) → IsGap f free before after → has_frame free f ≡ false
gap_is_free f free before after gap =
    sym (gap.same f)
    ∙ ground (
      arith,
      none_before f gap.mark before gap.low gap.below,
      none_after f gap.mark after gap.high gap.above,
    )

-- What a successful release has checked and done.
freed_list-ok :
    (a : FrameAllocator) (f : ℕ) (free' : List Extent)
    → Separated 0 a.free
    → freed_list a f ≡ ok free'
    → IsFrame f
      × (f + page_size < u64_mod)
      × (has_frame a.managed f ≡ true)
      × (has_frame a.free f ≡ false)
      × Takes f a.free free'
unfolding freed_list
freed_list-ok a f free' s e = elim (Result-cases (find_insertion f (f + page_size) [] a.free)) [
  | inr (x, bad) ↦ absurd (ground arith)
  | inl ((before, after), found) ↦ elim (Result-cases (joins_left f before)) [
    | inr (x, bad) ↦ absurd (ground arith)
    | inl (left, jl) ↦
        let aligned : IsFrame f = ground arith in
        let small : f + page_size < u64_mod = ground arith in
        let gap : IsGap f a.free before after =
          find_insertion-IsGap f 0 a.free [] a.free before after aligned tt s tt
            (λ g. unfold has_frame in refl) found in
        (
          aligned,
          small,
          unfold has_frame in ground arith,
          gap_is_free f a.free before after gap,
          insert_frame-Takes f left (joins_right (f + page_size) after) a.free before after free'
              aligned gap small jl refl (ground arith),
        )
  ]
]

-- A sound allocator takes a frame back only if it is an aligned, managed frame that is not free.
-- Then that frame joins the free set, no other frame does, the managed set does not change, and the
-- allocator stays sound.
pub free_frame_lem :
    (a : FrameAllocator) (f : ℕ)
    → IsSound a
    → (free_frame a f).1 ≡ ok tt
    → let a' = (free_frame a f).0 in
      IsFrame f
      × (has_frame a.managed f ≡ true)
      × (has_frame a.free f ≡ false)
      × ((g : ℕ) → IsFrame g → has_frame a'.free g ≡ (has_frame a.free g || g == f))
      × (a'.managed ≡ a.managed)
      × IsSound a'
unfolding free_frame
free_frame_lem a f s e = elim (Result-cases (freed_list a f)) [
  | inr (x, bad) ↦ absurd (ground arith)
  | inl (free', made) ↦
      let (aligned, small, owned, fresh, taken) = freed_list-ok a f free' s.separated made in
      rw (made, free_frame)
        (
          aligned,
          owned,
          fresh,
          taken.1,
          refl,
          record {
            separated = taken.0;
            managed_runs = s.managed_runs;
            within = λ g i h. ground (arith, taken.1 g i, s.within g i);
          },
        )
]

-- A release that is refused changes nothing.
pub free_frame_refused :
    (a : FrameAllocator) (f : ℕ) (x : FreeError)
    → (free_frame a f).1 ≡ err x
    → (free_frame a f).0 ≡ a
unfolding free_frame
free_frame_refused a f x e = elim (Result-cases (freed_list a f)) [
  | inr (y, bad) ↦ rw (bad, free_frame)
  | inl (free', made) ↦ absurd (ground arith)
]

-- The scan finds a gap for every frame that is not held, and loses no extent.
pub find_insertion_total :
    (f : ℕ) (before after : List Extent)
    → has_frame after f ≡ false
    → (b a : List Extent) × (find_insertion f (f + page_size) before after ≡ ok (b, a))
      × (length b + length a ≡ length before + length after)
unfolding find_insertion has_frame
find_insertion_total f before [] h = (before, [], refl, refl)
find_insertion_total f before (x ∷ after) h =
    let (b, a, found, kept) = find_insertion_total f (x ∷ before) after (ground arith) in
    elim (Bool-cases (ltb x.physical_start f)) [
      | inl pass ↦ (b, a, ground arith, omega arith)
      | inr stop ↦ (before, x ∷ after, ground arith, refl)
    ]
