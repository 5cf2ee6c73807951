-- ===== src/Frames/Acceptance.antt =====
-- When `FrameAllocator::free_frame` takes a frame back.
use makopa_os.Common.{
  rev_append, ℕ, ◌+◌, ◌<◌, ◌≡◌, refl, Bool, true, false, List, [], ◌∷◌, arith, ◌==◌, u64_mod, ok,
  length,
}
use makopa_os.Boot.{page_size}
use makopa_os.Frames.{
  Extent, FrameAllocator, contains_frame, extent_end, free_frame, freed_list, joins_left,
  joins_right, insert_frame, max_frame_extents,
}
use makopa_os.Frames.Extents.{limit, IsFrame, SeparatedBelow, has_frame}
use makopa_os.Frames.Allocation.{IsSound}
use makopa_os.Frames.Gaps.{IsGap, find_insertion-IsGap, joined_left}
use makopa_os.Frames.Release.{find_insertion_total, nothing_left}

-- A frame of an extent ends within 64 bits.
has_frame_small : (es : List Extent) (f : ℕ) → has_frame es f ≡ true → f + page_size < u64_mod
unfolding has_frame contains_frame extent_end
has_frame_small [] f h = absurd (ground arith)
has_frame_small (e ∷ es) f h = ground (arith, has_frame_small es f)

joins_left_total :
    (f m : ℕ) (before : List Extent)
    → SeparatedBelow m before
    → (left : Bool) × (joins_left f before ≡ ok left)
unfolding joins_left extent_end
joins_left_total f m [] s = (false, refl)
joins_left_total f m (e ∷ before) s = (limit e == f, ground arith)

insert_frame_total :
    (f : ℕ) (left right : Bool) (free before after : List Extent)
    → IsGap f free before after
    → length before + length after < max_frame_extents
    → joins_left f before ≡ ok left
    → joins_right (f + page_size) after ≡ right
    → (free' : List Extent) × (insert_frame f left right before after ≡ ok free')
unfolding insert_frame
insert_frame_total f true true free (l ∷ before) (r ∷ after) gap room jl jr =
    let meets = joined_left f gap.mark l before gap.low jl in
    let run_l = gap.low.1 in
    let run_r = gap.high.1 in
    (
      rev_append (record l { page_count = l.page_count + 1 + r.page_count } ∷ before) after,
      ground arith,
    )
insert_frame_total f true false free (l ∷ before) after gap room jl jr =
    let run_l = gap.low.1 in
    (rev_append (record l { page_count = l.page_count + 1 } ∷ before) after, ground arith)
insert_frame_total f false true free before (r ∷ after) gap room jl jr =
    let run_r = gap.high.1 in
    (
      rev_append before (record { physical_start = f; page_count = r.page_count + 1 } ∷ after),
      ground arith,
    )
insert_frame_total f true true free [] after gap room jl jr = absurd (nothing_left f jl)
insert_frame_total f true true free (l ∷ before) [] gap room jl jr = absurd (cc)
insert_frame_total f true false free [] after gap room jl jr = absurd (nothing_left f jl)
insert_frame_total f false true free before [] gap room jl jr = absurd (cc)
insert_frame_total f false false free before after gap room jl jr =
    (rev_append before (record { physical_start = f; page_count = 1 } ∷ after), ground arith)

-- While fewer than 1024 extents are free, a sound allocator takes back every aligned, managed frame
-- that is not free.
pub free_frame_accepts :
    (a : FrameAllocator) (f : ℕ)
    → IsSound a
    → IsFrame f
    → has_frame a.managed f ≡ true
    → has_frame a.free f ≡ false
    → length a.free < max_frame_extents
    → (free_frame a f).1 ≡ ok tt
unfolding free_frame freed_list
free_frame_accepts a f s i owned fresh room =
    let small = has_frame_small a.managed f owned in
    let (before, after, found, kept) = find_insertion_total f [] a.free fresh in
    let gap : IsGap f a.free before after =
      find_insertion-IsGap f 0 a.free [] a.free before after i tt s.separated tt
        (λ g. unfold has_frame in refl) found in
    let (left, jl) = joins_left_total f gap.mark before gap.low in
    let (free', made) =
      insert_frame_total f left (joins_right (f + page_size) after) a.free before after gap
        (ground arith) jl refl in
    unfold has_frame in ground arith
