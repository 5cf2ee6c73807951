-- ===== src/Image/Loads.antt =====
-- The loops of `validate_segments` over the program headers.
use mathlib.Core.List.{append-nil}
use makopa_os.Common.{
  ℕ, zero, suc, ◌+◌, ◌<◌, ◌≤◌, ◌≡◌, refl, ap, ◌∙◌, subst, ◌&&◌, ◌||◌, Bool, true, false, Option,
  none, some, List, [], ◌∷◌, ◌++◌, arith, ltb, leb, length, ok, Option-cases, Result-cases, inl,
  inr, All, any, length-append,
}
use makopa_os.Image.{
  Segment, ValidatedImage, segment_at, check_priors, check_segments, validate_segments,
  is_executable, maximum_load_segments,
}
use makopa_os.Image.Headers.{
  segment_end, IsLoadable, segment_at-IsLoadable, memory_end_ok, add_segment, load_segments,
  load_segments_snoc, Apart, Disjoint, check_priors_lem,
}

All-append {ℓ κ} :
    {A : Type ℓ} (P : A → Type κ) (xs : List A) (y : A) → All P xs → P y → All P (xs ++ (y ∷ []))
All-append P [] y a p = (p, tt)
All-append P (x ∷ xs) y a p = (a.0, All-append P xs y a.1 p)

Disjoint-append :
    (ss : List Segment) (s : Segment) → Disjoint ss → All (Apart s) ss → Disjoint (ss ++ (s ∷ []))
Disjoint-append [] s d a = (tt, tt)
Disjoint-append (t ∷ ss) s d a =
    let flipped : Apart t s = ground arith in
    (All-append (Apart t) ss s d.0 flipped, Disjoint-append ss s d.1 a.1)

any-append :
    {A : Type 0} (p : A → Bool) (xs : List A) (y : A) → any p (xs ++ (y ∷ [])) ≡ (any p xs || p y)
any-append p [] y = ground arith
any-append p (x ∷ xs) y = ground (arith, any-append p xs y)

-- An executable segment that holds the address.
abbrev pub runs_at : ℕ → Segment → Bool
runs_at address s = is_executable s && leb s.physical_start address && ltb address (segment_end s)

-- The headers before `index` have passed.
record IsChecked (image : ValidatedImage) (index : ℕ) (load_count : ℕ) (entry_ok : Bool)
    : Type 0 where
  pub loads : List Segment
  pub found : load_segments image index 0 ≡ ok loads
  pub loadable : All (IsLoadable image.bytes) loads
  pub disjoint : Disjoint loads
  pub counted : length loads ≡ load_count
  pub few : load_count ≤ maximum_load_segments
  pub entered : any (runs_at image.entry) loads ≡ entry_ok

found_next :
    (image : ValidatedImage) (index : ℕ) (ss : List Segment) (found : Option Segment)
    → load_segments image index 0 ≡ ok ss
    → segment_at image index ≡ ok found
    → load_segments image (index + 1) 0 ≡ ok (ss ++ add_segment found [])
found_next image index ss found e at =
    let at' = subst (λ (k : ℕ). segment_at image k ≡ ok found) (omega arith) at in
    subst (λ (k : ℕ). load_segments image k 0 ≡ ok (ss ++ add_segment found [])) (omega arith)
      (load_segments_snoc image index 0 ss found e at')

IsChecked-skip :
    (image : ValidatedImage) (index n : ℕ) (b : Bool)
    → IsChecked image index n b
    → segment_at image index ≡ ok none
    → IsChecked image (index + 1) n b
IsChecked-skip image index n b c at = record {
  loads = c.loads;
  found =
      subst (λ (ss : List Segment). load_segments image (index + 1) 0 ≡ ok ss) (append-nil c.loads)
        (found_next image index c.loads none c.found at);
  loadable = c.loadable;
  disjoint = c.disjoint;
  counted = c.counted;
  few = c.few;
  entered = c.entered;
}

IsChecked-add :
    (image : ValidatedImage) (index n : ℕ) (b : Bool) (s : Segment)
    → (c : IsChecked image index n b) → segment_at image index ≡ ok (some s)
    → All (Apart s) c.loads
    → n + 1 ≤ maximum_load_segments
    → IsChecked image (index + 1) (n + 1) (b || runs_at image.entry s)
IsChecked-add image index n b s c at apart few = record {
  loads = c.loads ++ (s ∷ []);
  found = found_next image index c.loads (some s) c.found at;
  loadable =
      All-append (IsLoadable image.bytes) c.loads s c.loadable
        (segment_at-IsLoadable image index s at);
  disjoint = Disjoint-append c.loads s c.disjoint apart;
  counted = omega (arith, length-append c.loads (s ∷ []), c.counted);
  few = few;
  entered =
      any-append (runs_at image.entry) c.loads s
      ∙ ap (λ (t : Bool). t || runs_at image.entry s) c.entered;
}

check_segments_lem :
    (image : ValidatedImage) (remaining index load_count : ℕ) (entry_ok : Bool) (load_count' : ℕ)
    (entry_ok' : Bool)
    → IsChecked image index load_count entry_ok
    → check_segments image remaining index load_count entry_ok ≡ ok (load_count', entry_ok')
    → IsChecked image (index + remaining) load_count' entry_ok'
unfolding check_segments
check_segments_lem image zero index n b n' b' c e =
    let same_n : n ≡ n' = ground arith in
    let same_b : b ≡ b' = ground arith in
    rw (← same_n, ← same_b) (subst (λ (k : ℕ). IsChecked image k n b) (omega arith) c)
check_segments_lem image (suc remaining) index n b n' b' c e =
    subst (λ (k : ℕ). IsChecked image k n' b') (omega arith)
      (elim (Result-cases (segment_at image index)) [
        | inr (x, bad) ↦ absurd (ground arith)
        | inl (found, at) ↦ elim (Option-cases found) [
          | inl nothing ↦
              check_segments_lem image remaining (index + 1) n b n' b'
                (IsChecked-skip image index n b c (rw nothing at at)) (ground arith)
          | inr (s, present) ↦
              let here = rw present at at in
              let ends = memory_end_ok s (segment_at-IsLoadable image index s here).small in
              elim (Result-cases (check_priors image s (segment_end s) index 0)) [
                | inr (x, bad) ↦ absurd (ground arith)
                | inl (u, clear) ↦
                    check_segments_lem image remaining (index + 1) (n + 1)
                      (b || runs_at image.entry s) n' b'
                      (IsChecked-add image index n b s c here
                        (check_priors_lem image s index 0 c.loads c.found clear) (ground arith))
                      (ground arith)
              ]
        ]
      ])

-- What an image that parses promises.
pub record IsLaidOut (image : ValidatedImage) : Type 0 where
  pub loads : List Segment
  pub found : load_segments image image.program_header_count 0 ≡ ok loads
  pub loadable : All (IsLoadable image.bytes) loads
  pub disjoint : Disjoint loads
  pub some_load : 0 < length loads
  pub few : length loads ≤ maximum_load_segments
  pub entered : any (runs_at image.entry) loads ≡ true

pub validate_segments_lem :
    (image : ValidatedImage) → validate_segments image ≡ ok tt → IsLaidOut image
unfolding validate_segments load_segments
validate_segments_lem image e =
    elim (Result-cases (check_segments image image.program_header_count 0 0 false)) [
      | inr (x, bad) ↦ absurd (ground arith)
      | inl ((n, b), checked) ↦
          let start : IsChecked image 0 0 false = record {
            loads = [];
            found = refl;
            loadable = tt;
            disjoint = tt;
            counted = refl;
            few = omega arith;
            entered = refl;
          } in
          let c = check_segments_lem image image.program_header_count 0 0 false n b start checked in
          record {
            loads = c.loads;
            found = subst (λ (k : ℕ). load_segments image k 0 ≡ ok c.loads) (omega arith) c.found;
            loadable = c.loadable;
            disjoint = c.disjoint;
            some_load = ground (arith, c.counted);
            few = omega (arith, c.counted, c.few);
            entered = ground (arith, c.entered);
          }
    ]
