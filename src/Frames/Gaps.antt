-- ===== src/Frames/Gaps.antt =====
-- The gap of the free list that a frame goes into, as `find_insertion` finds it.
use makopa_os.Common.{
  ℕ, ◌+◌, ◌≤◌, ◌≡◌, ◌||◌, true, false, List, [], ◌∷◌, arith, ltb, Result, ok, inl, inr, subst,
  ok_injective, Bool-cases,
}
use makopa_os.Boot.{page_size}
use makopa_os.Frames.{Extent, contains_frame, find_insertion, joins_left, joins_right, FreeError}
use makopa_os.Frames.Extents.{
  limit, IsFrame, Separated, SeparatedBelow, has_frame, contains_frame_run, SeparatedBelow-mono,
}

-- The first extent of a list, if any, starts above the frame; the nearest one before it ends at or
-- below it.
abbrev pub StartsAbove : ℕ → List Extent → Type 0
StartsAbove f [] = Unit {0}
StartsAbove f (e ∷ after) = f + page_size ≤ e.physical_start

abbrev pub EndsBelow : ℕ → List Extent → Type 0
EndsBelow f [] = Unit {0}
EndsBelow f (e ∷ before) = limit e ≤ f

-- Where a frame goes: the split of the free list.
pub record IsGap (f : ℕ) (free before after : List Extent) : Type 0 where
  pub mark : ℕ
  pub low : SeparatedBelow mark before
  pub high : Separated mark after
  pub below : EndsBelow f before
  pub above : StartsAbove f after
  pub same : (g : ℕ) → (has_frame before g || has_frame after g) ≡ has_frame free g

at_pair :
    (f : ℕ) (free before after b a : List Extent)
    → IsGap f free before after
    → ◌≡◌ {A = Result FreeError (List Extent × List Extent)} (ok (before, after)) (ok (b, a))
    → IsGap f free b a
at_pair f free before after b a gap e = subst (λ p. IsGap f free p.0 p.1) (ok_injective e) gap

pub find_insertion-IsGap :
    (f m : ℕ) (free before after b a : List Extent)
    → IsFrame f
    → SeparatedBelow m before
    → Separated m after
    → EndsBelow f before
    → ((g : ℕ) → (has_frame before g || has_frame after g) ≡ has_frame free g)
    → find_insertion f (f + page_size) before after ≡ ok (b, a)
    → IsGap f free b a
unfolding find_insertion
find_insertion-IsGap f m free before [] b a i low high below same e =
    at_pair f free before [] b a
      (record { mark = m; low = low; high = high; below = below; above = tt; same = same }) e
find_insertion-IsGap f m free before (x ∷ after) b a i low high below same e =
    elim (Bool-cases (contains_frame x f (f + page_size))) [
      | inl held ↦ absurd (ground arith)
      | inr apart ↦ elim (Bool-cases (ltb x.physical_start f)) [
        | inl pass ↦
            find_insertion-IsGap f (limit x + 1) free (x ∷ before) after b a i
              (omega arith, high.1, SeparatedBelow-mono m x.physical_start before high.0 low) high.2
              (ground (arith, contains_frame_run x f high.1.2))
              (λ g. unfold has_frame in ground (arith, same g)) (ground arith)
        | inr stop ↦
            at_pair f free before (x ∷ after) b a
              (record {
                mark = m;
                low = low;
                high = high;
                below = below;
                above = ground (arith, contains_frame_run x f high.1.2);
                same = same;
              })
              (ground arith)
      ]
    ]

-- Where the frame does not touch its neighbours, the gap is wider than the frame.
pub apart_below :
    (f m : ℕ) (before : List Extent)
    → SeparatedBelow m before
    → EndsBelow f before
    → joins_left f before ≡ ok false
    → SeparatedBelow f before
unfolding joins_left
apart_below f m [] s b j = tt
apart_below f m (e ∷ before) s b j = (ground arith, s.1, s.2)

pub apart_above :
    (f m : ℕ) (after : List Extent)
    → Separated m after
    → StartsAbove f after
    → joins_right (f + page_size) after ≡ false
    → Separated (f + page_size + 1) after
apart_above f m [] s b j = tt
apart_above f m (e ∷ after) s b j = (ground arith, s.1, s.2)

pub joined_left :
    (f m : ℕ) (e : Extent) (before : List Extent)
    → SeparatedBelow m (e ∷ before)
    → joins_left f (e ∷ before) ≡ ok true
    → limit e ≡ f
unfolding joins_left
joined_left f m e before s j = ground arith
