-- ===== src/Frames/Extents.antt =====
-- Lists of extents as sets of frames: extents in ascending order, of whole pages, with a gap between
-- any two, and the frames that they hold.
use makopa_os.Common.{
  rev_append, ℕ, ◌+◌, ◌*◌, ◌%◌, ◌<◌, ◌≤◌, ◌≡◌, refl, ◌||◌, ◌&&◌, Bool, false, List, [], ◌∷◌, arith,
  leb, any, u64_mod,
}
use makopa_os.Boot.{page_size}
use makopa_os.Frames.{Extent, contains_frame}

-- The end of an extent, as a number without a bound.
abbrev pub limit : Extent → ℕ
limit e = e.physical_start + e.page_count * page_size

abbrev pub IsFrame : ℕ → Type 0
IsFrame f = f % page_size ≡ 0

-- A non-empty run of whole pages within 64 bits.
abbrev pub IsRun : Extent → Type 0
IsRun e = (e.physical_start % page_size ≡ 0) × (0 < e.page_count) × (limit e < u64_mod)

-- Ascending from `low` on, with a gap after each extent.
abbrev pub Separated : ℕ → List Extent → Type 0
Separated low [] = Unit {0}
Separated low (e ∷ es) = (low ≤ e.physical_start) × IsRun e × Separated (limit e + 1) es

-- The same of a list that is read backwards, below `high`.
abbrev pub SeparatedBelow : ℕ → List Extent → Type 0
SeparatedBelow high [] = Unit {0}
SeparatedBelow high (e ∷ es) = (limit e < high) × IsRun e × SeparatedBelow e.physical_start es

-- The set of frames that a list of extents stands for.
unfoldable pub has_frame : List Extent → ℕ → Bool
unfolding contains_frame
has_frame es f = any (λ e. contains_frame e f (f + page_size)) es

pub contains_frame_run :
    (e : Extent) (f : ℕ)
    → limit e < u64_mod
    → contains_frame e f (f + page_size) ≡ (leb e.physical_start f && leb (f + page_size) (limit e))
unfolding contains_frame
contains_frame_run e f h = ground arith

pub Separated-mono :
    (low low' : ℕ) (es : List Extent) → low ≤ low' → Separated low' es → Separated low es
Separated-mono low low' [] h s = tt
Separated-mono low low' (e ∷ es) h s = (omega arith, s.1, s.2)

pub SeparatedBelow-mono :
    (high high' : ℕ) (es : List Extent)
    → high ≤ high'
    → SeparatedBelow high es
    → SeparatedBelow high' es
SeparatedBelow-mono high high' [] h s = tt
SeparatedBelow-mono high high' (e ∷ es) h s = (omega arith, s.1, s.2)

-- What stands before and what stands after a mark make one separated list.
pub Separated-rev_append :
    (m : ℕ) (before after : List Extent)
    → SeparatedBelow m before
    → Separated m after
    → Separated 0 (rev_append before after)
Separated-rev_append m [] after b a = Separated-mono 0 m after (omega arith) a
Separated-rev_append m (e ∷ before) after b a =
    Separated-rev_append e.physical_start before (e ∷ after) b.2
      (omega arith, b.1, Separated-mono (limit e + 1) m after (omega arith) a)

pub has_frame-rev_append :
    (before after : List Extent) (f : ℕ)
    → has_frame (rev_append before after) f ≡ (has_frame before f || has_frame after f)
unfolding has_frame
has_frame-rev_append [] after f = refl
has_frame-rev_append (e ∷ before) after f =
    ground (arith, has_frame-rev_append before (e ∷ after) f)

-- A frame below every extent is in none, and so is one above.
pub has_frame_below :
    (low : ℕ) (es : List Extent) (f : ℕ) → Separated low es → f < low → has_frame es f ≡ false
unfolding has_frame
has_frame_below low [] f s h = refl
has_frame_below low (e ∷ es) f s h =
    ground (arith, contains_frame_run e f s.1.2, has_frame_below (limit e + 1) es f s.2)

pub has_frame_above :
    (high : ℕ) (es : List Extent) (f : ℕ)
    → SeparatedBelow high es
    → high ≤ f + 1
    → has_frame es f ≡ false
unfolding has_frame
has_frame_above high [] f s h = refl
has_frame_above high (e ∷ es) f s h =
    ground (arith, contains_frame_run e f s.1.2, has_frame_above e.physical_start es f s.2)
