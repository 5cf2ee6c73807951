-- ===== src/Frames/Growth.antt =====
-- Lists of extents that grow at the end, as in the filling loop of `initialize`.
use makopa_os.Common.{
  ℕ, suc, ◌+◌, ◌*◌, ◌<◌, ◌≤◌, ◌≡◌, refl, ◌||◌, ◌&&◌, true, false, List, [], ◌∷◌, ◌++◌, arith, leb,
  ◌==◌, u64_mod, length, ap,
}
use makopa_os.Boot.{page_size}
use makopa_os.Frames.{Extent, contains_frame, extent_end}
use makopa_os.Frames.Extents.{limit, IsFrame, IsRun, Separated, has_frame, contains_frame_run}
use makopa_os.Frames.Initialization.{can_merge, grow_last, is_some_value}

-- Every extent ends at `high` or below.
abbrev pub EndsBy : ℕ → List Extent → Type 0
EndsBy high [] = Unit {0}
EndsBy high (e ∷ es) = (limit e ≤ high) × EndsBy high es

pub EndsBy-mono :
    (high high' : ℕ) (es : List Extent) → high ≤ high' → EndsBy high es → EndsBy high' es
EndsBy-mono high high' [] h s = tt
EndsBy-mono high high' (e ∷ es) h s = (omega arith, EndsBy-mono high high' es h s.1)

-- A region beyond the last extent stands apart or grows it.
pub Separated-append :
    (low start pages : ℕ) (es : List Extent)
    → Separated low es
    → EndsBy start es
    → low ≤ start
    → can_merge es start ≡ false
    → IsRun (record { physical_start = start; page_count = pages })
    → Separated low (es ++ record { physical_start = start; page_count = pages } ∷ [])
unfolding extent_end
Separated-append low start pages [] s b h m run = (h, run, tt)
Separated-append low start pages (e ∷ []) s b h m run = (s.0, s.1, (ground arith, run, tt))
Separated-append low start pages (e ∷ e' ∷ es) s b h m run =
    (s.0, s.1, Separated-append (limit e + 1) start pages (e' ∷ es) s.2 b.1 (ground arith) m run)

pub Separated-grow_last :
    (low start pages : ℕ) (es : List Extent)
    → Separated low es
    → can_merge es start ≡ true
    → start + pages * page_size < u64_mod
    → Separated low (grow_last es pages)
unfolding extent_end
Separated-grow_last low start pages [] s m small = tt
Separated-grow_last low start pages (e ∷ []) s m small = ground arith
Separated-grow_last low start pages (e ∷ e' ∷ es) s m small =
    (s.0, s.1, Separated-grow_last (limit e + 1) start pages (e' ∷ es) s.2 m small)

pub EndsBy-append :
    (high : ℕ) (e : Extent) (es : List Extent)
    → EndsBy high es
    → limit e ≤ high
    → EndsBy high (es ++ e ∷ [])
EndsBy-append high e [] b h = (h, tt)
EndsBy-append high e (x ∷ es) b h = (b.0, EndsBy-append high e es b.1 h)

pub EndsBy-grow_last :
    (low high start pages : ℕ) (es : List Extent)
    → EndsBy start es
    → can_merge es start ≡ true
    → start + pages * page_size ≤ high
    → EndsBy high (grow_last es pages)
unfolding extent_end
EndsBy-grow_last low high start pages [] b m h = tt
EndsBy-grow_last low high start pages (e ∷ []) b m h = ground arith
EndsBy-grow_last low high start pages (e ∷ e' ∷ es) b m h =
    (omega (arith, b.0), EndsBy-grow_last low high start pages (e' ∷ es) b.1 m h)

pub can_merge-append :
    (e : Extent) (es : List Extent) (start : ℕ)
    → can_merge (es ++ e ∷ []) start ≡ is_some_value (extent_end e) start
can_merge-append e [] start = refl
can_merge-append e (x ∷ []) start = refl
can_merge-append e (x ∷ x' ∷ es) start = can_merge-append e (x' ∷ es) start

pub can_merge-grow_last :
    (low start pages : ℕ) (es : List Extent) (start' : ℕ)
    → Separated low es
    → can_merge es start ≡ true
    → start + pages * page_size < u64_mod
    → can_merge (grow_last es pages) start' ≡ (start + pages * page_size == start')
unfolding extent_end
can_merge-grow_last low start pages [] start' s m small = absurd (ground arith)
can_merge-grow_last low start pages (e ∷ []) start' s m small = ground arith
can_merge-grow_last low start pages (e ∷ e' ∷ []) start' s m small =
    can_merge-grow_last (limit e + 1) start pages (e' ∷ []) start' s.2 m small
can_merge-grow_last low start pages (e ∷ e' ∷ e'' ∷ es) start' s m small =
    can_merge-grow_last (limit e + 1) start pages (e' ∷ e'' ∷ es) start' s.2 m small

pub has_frame-append :
    (e : Extent) (es : List Extent) (f : ℕ)
    → has_frame (es ++ e ∷ []) f ≡ (has_frame es f || contains_frame e f (f + page_size))
unfolding has_frame
has_frame-append e [] f = ground arith
has_frame-append e (x ∷ es) f = ground (arith, has_frame-append e es f)

pub has_frame-grow_last :
    (low start pages : ℕ) (es : List Extent) (f : ℕ)
    → Separated low es
    → IsFrame f
    → can_merge es start ≡ true
    → start + pages * page_size < u64_mod
    → has_frame (grow_last es pages) f
      ≡ (has_frame es f || leb start f && leb (f + page_size) (start + pages * page_size))
unfolding has_frame extent_end
has_frame-grow_last low start pages [] f s i m small = absurd (ground arith)
has_frame-grow_last low start pages (e ∷ []) f s i m small = ground (
  arith,
  contains_frame_run e f,
  contains_frame_run (record e { page_count = e.page_count + pages }) f,
)
has_frame-grow_last low start pages (e ∷ e' ∷ es) f s i m small =
    ground (arith, has_frame-grow_last (limit e + 1) start pages (e' ∷ es) f s.2 i m small)

pub length-grow_last : (pages : ℕ) (es : List Extent) → length (grow_last es pages) ≡ length es
length-grow_last pages [] = refl
length-grow_last pages (e ∷ []) = refl
length-grow_last pages (e ∷ e' ∷ es) = ap suc (length-grow_last pages (e' ∷ es))
