-- ===== src/Frames/Insertion.antt =====
-- The free list with a frame put into its gap, in each of the four ways of `free_frame`.
use makopa_os.Common.{
  rev_append, ℕ, ◌+◌, ◌<◌, ◌≡◌, ◌||◌, false, List, ◌∷◌, arith, ◌==◌, u64_mod, ok,
}
use makopa_os.Boot.{page_size}
use makopa_os.Frames.{Extent, contains_frame, joins_left, joins_right}
use makopa_os.Frames.Extents.{
  limit, IsFrame, IsRun, Separated, has_frame, contains_frame_run, Separated-mono,
  Separated-rev_append, has_frame-rev_append,
}
use makopa_os.Frames.Gaps.{IsGap, apart_below, apart_above}

-- The four extents that take the frame in, as sets of frames.
pub single_frame :
    (f g : ℕ)
    → IsFrame f
    → IsFrame g
    → f + page_size < u64_mod
    → contains_frame (record { physical_start = f; page_count = 1 }) g (g + page_size) ≡ (g == f)
single_frame f g i k small =
    ground (arith, contains_frame_run (record { physical_start = f; page_count = 1 }) g)

pub grown_right :
    (l : Extent) (f g : ℕ)
    → IsRun l
    → IsFrame g
    → limit l ≡ f
    → f + page_size < u64_mod
    → contains_frame (record l { page_count = l.page_count + 1 }) g (g + page_size)
      ≡ (contains_frame l g (g + page_size) || g == f)
grown_right l f g run k meets small = ground (
  arith,
  contains_frame_run l g,
  contains_frame_run (record l { page_count = l.page_count + 1 }) g,
)

pub grown_left :
    (r : Extent) (f g : ℕ)
    → IsRun r
    → IsFrame g
    → r.physical_start ≡ f + page_size
    → contains_frame
        (record { physical_start = f; page_count = r.page_count + 1 })
        g
        (g + page_size)
      ≡ (contains_frame r g (g + page_size) || g == f)
grown_left r f g run k meets = ground (
  arith,
  contains_frame_run r g,
  contains_frame_run (record { physical_start = f; page_count = r.page_count + 1 }) g,
)

pub grown_across :
    (l r : Extent) (f g : ℕ)
    → IsRun l
    → IsRun r
    → IsFrame g
    → limit l ≡ f
    → r.physical_start ≡ f + page_size
    → contains_frame (record l { page_count = l.page_count + 1 + r.page_count }) g (g + page_size)
      ≡ (contains_frame l g (g + page_size) || contains_frame r g (g + page_size) || g == f)
grown_across l r f g run_l run_r k meets_l meets_r = ground (
  arith,
  contains_frame_run l g,
  contains_frame_run r g,
  contains_frame_run (record l { page_count = l.page_count + 1 + r.page_count }) g,
)

-- The set with the frame put in.
abbrev pub With : ℕ → List Extent → List Extent → Type 0
With f free free' = (g : ℕ) → IsFrame g → has_frame free' g ≡ (has_frame free g || g == f)

-- What a free list is after the frame is put in.
abbrev pub Takes : ℕ → List Extent → List Extent → Type 0
Takes f free free' = Separated 0 free' × With f free free'

pub insert_alone :
    (f : ℕ) (free before after : List Extent)
    → IsFrame f
    → IsGap f free before after
    → f + page_size < u64_mod
    → joins_left f before ≡ ok false
    → joins_right (f + page_size) after ≡ false
    → Takes f free (rev_append before (record { physical_start = f; page_count = 1 } ∷ after))
insert_alone f free before after i gap small l r = (
  Separated-rev_append f before _ (apart_below f gap.mark before gap.low gap.below l)
      (omega arith, ground arith, apart_above f gap.mark after gap.high gap.above r),
  λ g k.
      unfold has_frame in
      ground (
        arith,
        has_frame-rev_append before (record { physical_start = f; page_count = 1 } ∷ after) g,
        single_frame f g i k small,
        gap.same g,
      ),
)

pub insert_right_of :
    (f : ℕ) (free before after : List Extent) (l : Extent)
    → IsFrame f
    → IsGap f free (l ∷ before) after
    → f + page_size < u64_mod
    → limit l ≡ f
    → joins_right (f + page_size) after ≡ false
    → Takes f free (rev_append (record l { page_count = l.page_count + 1 } ∷ before) after)
insert_right_of f free before after l i gap small meets r = (
  Separated-rev_append (f + page_size + 1) (record l { page_count = l.page_count + 1 } ∷ before)
      after (omega arith, ground arith, gap.low.2)
      (apart_above f gap.mark after gap.high gap.above r),
  λ g k.
      unfold has_frame in
      ground (
        arith,
        has_frame-rev_append (record l { page_count = l.page_count + 1 } ∷ before) after g,
        grown_right l f g gap.low.1 k meets small,
        gap.same g,
      ),
)

pub insert_left_of :
    (f : ℕ) (free before after : List Extent) (r : Extent)
    → IsFrame f
    → IsGap f free before (r ∷ after)
    → joins_left f before ≡ ok false
    → r.physical_start ≡ f + page_size
    → Takes f free
        (rev_append before (record { physical_start = f; page_count = r.page_count + 1 } ∷ after))
insert_left_of f free before after r i gap l meets = (
  Separated-rev_append f before _ (apart_below f gap.mark before gap.low gap.below l)
      (omega arith, ground arith, Separated-mono _ (limit r + 1) after (omega arith) gap.high.2),
  λ g k.
      unfold has_frame in
      ground (
        arith,
        has_frame-rev_append before
            (record { physical_start = f; page_count = r.page_count + 1 } ∷ after) g,
        grown_left r f g gap.high.1 k meets,
        gap.same g,
      ),
)

pub insert_between :
    (f : ℕ) (free before after : List Extent) (l r : Extent)
    → IsFrame f
    → IsGap f free (l ∷ before) (r ∷ after)
    → limit l ≡ f
    → r.physical_start ≡ f + page_size
    → Takes f free
        (rev_append (record l { page_count = l.page_count + 1 + r.page_count } ∷ before) after)
insert_between f free before after l r i gap meets_l meets_r = (
  Separated-rev_append (limit r + 1)
      (record l { page_count = l.page_count + 1 + r.page_count } ∷ before) after
      (omega arith, ground arith, gap.low.2) gap.high.2,
  λ g k.
      unfold has_frame in
      ground (
        arith,
        has_frame-rev_append (record l { page_count = l.page_count + 1 + r.page_count } ∷ before)
            after g,
        grown_across l r f g gap.low.1 gap.high.1 k meets_l meets_r,
        gap.same g,
      ),
)
