-- ===== src/Image/Headers.antt =====
-- What the checks of one program header establish, and the loops over the headers.
use makopa_os.Common.{
  ok_injective, ℕ, zero, suc, ◌+◌, ◌*◌, ◌%◌, ◌<◌, ◌≤◌, ◌≡◌, refl, ap, subst, Option, none, some,
  List, [], ◌∷◌, ◌++◌, arith, length, ok, u64_mod, Option-cases, Result-cases, Result, ◌⊎◌, inl,
  inr, All, ◌>>=◌,
}
use makopa_os.Boot.{page_size}
use makopa_os.Image.{
  Segment, ValidatedImage, Error, segment_at, segment_of, read_header, memory_end, check_priors,
  program_header_size, minimum_load_address, ProgramHeader,
}

abbrev pub segment_end : Segment → ℕ
segment_end s = s.physical_start + s.memory_size

-- A segment that can be loaded: its bytes are in the file, and its memory is from 1 MiB on, starts a
-- page and ends within 64 bits.
pub record IsLoadable (bytes : List ℕ) (s : Segment) : Type 0 where
  pub within : s.file_offset + s.file_size ≤ length bytes
  pub filled : s.file_size ≤ s.memory_size
  pub some_memory : 0 < s.memory_size
  pub high : minimum_load_address ≤ s.physical_start
  pub whole : s.physical_start % page_size ≡ 0
  pub small : segment_end s < u64_mod

segment_of-IsLoadable :
    (bytes : List ℕ) (h : ProgramHeader) (s : Segment)
    → segment_of bytes h ≡ ok s
    → IsLoadable bytes s
unfolding segment_of
segment_of-IsLoadable bytes h s e = record {
  within = ground arith;
  filled = ground arith;
  some_memory = ground arith;
  high = ground arith;
  whole = ground arith;
  small = ground arith;
}

pub segment_at-IsLoadable :
    (image : ValidatedImage) (index : ℕ) (s : Segment)
    → segment_at image index ≡ ok (some s)
    → IsLoadable image.bytes s
unfolding segment_at
segment_at-IsLoadable image index s e =
    let offset : ℕ = image.program_headers_offset + program_header_size * index in
    elim (Result-cases (read_header image.bytes offset)) [
      | inr (x, bad) ↦ absurd (ground arith)
      | inl (h, good) ↦ elim (Result-cases (segment_of image.bytes h)) [
        | inr (x, bad) ↦ absurd (ground arith)
        | inl (t, made) ↦
            let same : t ≡ s = ground arith in
            subst (λ (u : Segment). IsLoadable image.bytes u) same
              (segment_of-IsLoadable image.bytes h t made)
      ]
    ]

pub memory_end_ok : (s : Segment) → segment_end s < u64_mod → memory_end s ≡ ok (segment_end s)
unfolding memory_end
memory_end_ok s h = ground arith

-- The load segments of the headers from `index`, of which `remaining` are left.
abbrev pub add_segment : Option Segment → List Segment → List Segment
add_segment none ss = ss
add_segment (some s) ss = s ∷ ss

unfoldable pub load_segments : ValidatedImage → ℕ → ℕ → Result Error (List Segment)
load_segments image zero index = ok []
load_segments image (suc remaining) index = do
  found ← segment_at image index
  later ← load_segments image remaining (index + 1)
  ok (add_segment found later)

add_segment_append :
    (found : Option Segment) (ss ts : List Segment)
    → add_segment found (ss ++ ts) ≡ add_segment found ss ++ ts
add_segment_append none ss ts = refl
add_segment_append (some s) ss ts = refl

pub load_segments_snoc :
    (image : ValidatedImage) (n index : ℕ) (ss : List Segment) (found : Option Segment)
    → load_segments image n index ≡ ok ss
    → segment_at image (index + n) ≡ ok found
    → load_segments image (suc n) index ≡ ok (ss ++ add_segment found [])
unfolding load_segments
load_segments_snoc image zero index ss found e f =
    let here : segment_at image index ≡ ok found =
      subst (λ (k : ℕ). segment_at image k ≡ ok found) (omega arith) f in
    let empty : [] ≡ ss = ok_injective e in rw (here, ← empty) refl
load_segments_snoc image (suc n) index ss found e f = elim (Result-cases (segment_at image index)) [
  | inr (x, bad) ↦ absurd (ground arith)
  | inl (first, at) ↦ elim (Result-cases (load_segments image n (index + 1))) [
    | inr (x, bad) ↦ absurd (ground arith)
    | inl (later, rest) ↦
        let next : segment_at image (index + 1 + n) ≡ ok found =
          subst (λ (k : ℕ). segment_at image k ≡ ok found) (omega arith) f in
        let ih = load_segments_snoc image n (index + 1) later found rest next in
        let both : add_segment first later ≡ ss = ground arith in
        rw (at, ih, ← both) (ap ok (add_segment_append first later (add_segment found [])))
  ]
]

-- Two segments that share no memory.
abbrev pub Apart : Segment → Segment → Type 0
Apart s t = (segment_end s ≤ t.physical_start) ⊎ (segment_end t ≤ s.physical_start)

abbrev pub Disjoint : List Segment → Type 0
Disjoint [] = Unit {0}
Disjoint (s ∷ ss) = All (Apart s) ss × Disjoint ss

pub check_priors_lem :
    (image : ValidatedImage) (s : Segment) (n index : ℕ) (ps : List Segment)
    → load_segments image n index ≡ ok ps
    → check_priors image s (segment_end s) n index ≡ ok tt
    → All (Apart s) ps
unfolding check_priors load_segments
check_priors_lem image s zero index ps l e =
    subst (λ (ts : List Segment). All (Apart s) ts) (ok_injective l) tt
check_priors_lem image s (suc n) index ps l e = elim (Result-cases (segment_at image index)) [
  | inr (x, bad) ↦ absurd (ground arith)
  | inl (found, at) ↦ elim (Result-cases (load_segments image n (index + 1))) [
    | inr (x, bad) ↦ absurd (ground arith)
    | inl (later, rest) ↦ elim (Option-cases found) [
      | inl nothing ↦
          let same : later ≡ ps = ground arith in
          subst (λ (ts : List Segment). All (Apart s) ts) same
            (check_priors_lem image s n (index + 1) later rest (ground arith))
      | inr (p, present) ↦
          let loadable = segment_at-IsLoadable image index p (rw present at at) in
          let same : p ∷ later ≡ ps = ground arith in
          let ends = memory_end_ok p loadable.small in
          subst (λ (ts : List Segment). All (Apart s) ts) same
            (ground arith, check_priors_lem image s n (index + 1) later rest (ground arith))
    ]
  ]
]
