-- ===== src/Image/Iterator.antt =====
-- `ValidatedImage::parse` and the iterator over the load segments of the image.
use makopa_os.Common.{
  ℕ, zero, suc, ◌+◌, ◌-◌, ◌*◌, ◌<◌, ◌≤◌, ◌≡◌, refl, ap, subst, true, none, some, List, [], ◌∷◌,
  arith, length, ok, Option-cases, Result-cases, Result, inl, inr, ◌>>=◌, All, any,
}
use makopa_os.Image.{
  Segment, Segments, Panic, ValidatedImage, segment_at, validate_segments, parse, next, next_within,
  segments, check_elf_header, read_u16, read_u64, slice, prefix, file_bytes, program_header_size,
  maximum_load_segments,
}
use makopa_os.Image.Headers.{load_segments, IsLoadable, Disjoint}
use makopa_os.Image.Listing.{Lists, load_segments-Lists}
use makopa_os.Image.Loads.{validate_segments_lem, runs_at}

-- The fields of an image are the file's, and the header loop has passed.
record IsParsed (bytes : List ℕ) (image : ValidatedImage) : Type 0 where
  same : image.bytes ≡ bytes
  valid : validate_segments image ≡ ok tt
  count : read_u16 bytes 56 ≡ ok image.program_header_count
  offset : read_u64 bytes 32 ≡ ok image.program_headers_offset
  entry : read_u64 bytes 24 ≡ ok image.entry

parse_parts :
    (bytes : List ℕ) (image : ValidatedImage) → parse bytes ≡ ok image → IsParsed bytes image
unfolding parse
parse_parts bytes image e = elim (Result-cases (check_elf_header bytes)) [
  | inr (x, bad) ↦ absurd (ground arith)
  | inl (u₀, checked) ↦ elim (Result-cases (read_u16 bytes 56)) [
    | inr (x, bad) ↦ absurd (ground arith)
    | inl (n, count) ↦ elim (Result-cases (read_u64 bytes 32)) [
      | inr (x, bad) ↦ absurd (ground arith)
      | inl (offset, table) ↦ elim (Result-cases (read_u64 bytes 24)) [
        | inr (x, bad) ↦ absurd (ground arith)
        | inl (entry, enters) ↦
            let made : ValidatedImage = record {
              bytes = bytes;
              entry = entry;
              program_headers_offset = offset;
              program_header_count = n;
            } in
            elim (Result-cases (validate_segments made)) [
              | inr (x, bad) ↦ absurd (ground arith)
              | inl (u, valid) ↦
                  let same : made ≡ image = ground arith in
                  subst (λ (i : ValidatedImage). IsParsed bytes i) same
                    (record {
                      same = refl;
                      valid = valid;
                      count = count;
                      offset = table;
                      entry = enters;
                    })
            ]
      ]
    ]
  ]
]

-- Where the iterator stands after `n` headers.
abbrev at_index : ValidatedImage → ℕ → Segments
at_index image index = record { image = image; next_index = index }

next_none :
    (image : ValidatedImage) (n index : ℕ)
    → load_segments image n index ≡ ok []
    → next_within n (at_index image index) ≡ ok (none, at_index image (index + n))
unfolding next_within load_segments
next_none image zero index l = ap (λ (k : ℕ). ok (none, at_index image k)) (omega arith)
next_none image (suc n) index l = elim (Result-cases (segment_at image index)) [
  | inr (x, bad) ↦ absurd (ground arith)
  | inl (found, at) ↦ elim (Result-cases (load_segments image n (index + 1))) [
    | inr (x, bad) ↦ absurd (ground arith)
    | inl (later, rest) ↦ elim (Option-cases found) [
      | inl nothing ↦
          let same : later ≡ [] = ground arith in
          let ih = next_none image n (index + 1) (rw same at rest) in
          rw (at, nothing, ih, next_within)
            (ap (λ (k : ℕ). ok (none, at_index image k)) (omega arith))
      | inr (t, present) ↦ absurd (ground arith)
    ]
  ]
]

next_some :
    (image : ValidatedImage) (n index : ℕ) (s : Segment) (ss : List Segment)
    → load_segments image n index ≡ ok (s ∷ ss)
    → (k : ℕ) × (index' : ℕ) × (index' + k ≡ index + n)
      × (next_within n (at_index image index) ≡ ok (some s, at_index image index'))
      × (load_segments image k index' ≡ ok ss)
unfolding next_within load_segments
next_some image zero index s ss l = absurd (ground arith)
next_some image (suc n) index s ss l = elim (Result-cases (segment_at image index)) [
  | inr (x, bad) ↦ absurd (ground arith)
  | inl (found, at) ↦ elim (Result-cases (load_segments image n (index + 1))) [
    | inr (x, bad) ↦ absurd (ground arith)
    | inl (later, rest) ↦ elim (Option-cases found) [
      | inl nothing ↦
          let same : later ≡ s ∷ ss = ground arith in
          let (k, index', whole, found', later') =
            next_some image n (index + 1) s ss (rw same at rest) in
          (k, index', omega arith, rw (at, nothing, found', next_within) refl, later')
      | inr (t, present) ↦
          let same : t ∷ later ≡ s ∷ ss = ground arith in
          let first : t ≡ s = ground arith in
          let others : later ≡ ss = ground arith in
          (n, index + 1, omega arith, rw (at, present, first, next_within) refl, rw others at rest)
    ]
  ]
]

-- `for segment in image.segments()`, with a bound on the rounds.
unfoldable pub collect : ℕ → Segments → Result Panic (List Segment)
collect zero s = ok []
collect (suc rounds) s =
    let rest = λ (t : Segments). collect rounds t in
    do
      (found, after) ← next s
      elim found [ none ↦ ok [] | some segment ↦ do later ← rest after; ok (segment ∷ later) ]

collect_lem :
    (image : ValidatedImage) (rounds n index : ℕ) (ss : List Segment)
    → length ss < rounds
    → index + n ≡ image.program_header_count
    → load_segments image n index ≡ ok ss
    → collect rounds (at_index image index) ≡ ok ss
unfolding collect next
collect_lem image zero n index ss h whole l = absurd (omega arith)
collect_lem image (suc rounds) n index [] h whole l =
    let left : image.program_header_count - index ≡ n = omega arith in
    rw (left, next_none image n index l) refl
collect_lem image (suc rounds) n index (s ∷ ss) h whole l =
    let left : image.program_header_count - index ≡ n = omega arith in
    let (k, index', whole', found, later) = next_some image n index s ss l in
    let ih = collect_lem image rounds k index' ss (omega arith) (omega arith) later in
    rw (left, found, ih) refl

prefix-some :
    (bytes : List ℕ) (n : ℕ)
    → n ≤ length bytes
    → (xs : List ℕ) × (prefix bytes n ≡ some xs) × (length xs ≡ n)
prefix-some bytes zero h = ([], refl, refl)
prefix-some [] (suc n) h = absurd (omega arith)
prefix-some (x ∷ bytes) (suc n) h =
    let (xs, found, sized) = prefix-some bytes n (omega arith) in
    (x ∷ xs, rw found refl, omega arith)

slice-some :
    (bytes : List ℕ) (offset n : ℕ)
    → offset + n ≤ length bytes
    → (xs : List ℕ) × (slice bytes offset n ≡ some xs) × (length xs ≡ n)
slice-some bytes zero n h = prefix-some bytes n (omega arith)
slice-some [] (suc offset) n h = absurd (omega arith)
slice-some (x ∷ bytes) (suc offset) n h = slice-some bytes offset n (omega arith)

-- The loader can read the segment's bytes without a panic.
abbrev pub IsReadable : ValidatedImage → Segment → Type 0
IsReadable image s = (xs : List ℕ) × (file_bytes image s ≡ some xs) × (length xs ≡ s.file_size)

readable :
    (image : ValidatedImage) (ss : List Segment)
    → All (IsLoadable image.bytes) ss
    → All (IsReadable image) ss
unfolding file_bytes
readable image [] a = tt
readable image (s ∷ ss) a =
    (slice-some image.bytes s.file_offset s.file_size a.0.within, readable image ss a.1)

-- The iterator over an image that parses ends and never meets the panic: after at most one round
-- more than there are load headers in the file's table of program headers it has given the segment of
-- each of them, in their order, with the header's fields. There are between 1 and 16. Each lies inside
-- the file, so that its bytes can be read, and in page-aligned memory from 1 MiB on that ends within
-- 64 bits; no two share memory; and an executable one holds the file's entry.
pub parse_lem :
    (bytes : List ℕ) (image : ValidatedImage)
    → parse bytes ≡ ok image
    → (loads : List Segment) × (count : ℕ) × (offset : ℕ) × (entry : ℕ) × ((rounds : ℕ)
        → length loads < rounds
        → collect rounds (segments image) ≡ ok loads)
      × (read_u16 bytes 56 ≡ ok count)
      × (read_u64 bytes 32 ≡ ok offset)
      × (read_u64 bytes 24 ≡ ok entry)
      × Lists bytes count offset loads
      × (0 < length loads)
      × (length loads ≤ maximum_load_segments)
      × All (IsLoadable bytes) loads
      × All (IsReadable image) loads
      × Disjoint loads
      × (any (runs_at entry) loads ≡ true)
parse_lem bytes image e =
    let parts = parse_parts bytes image e in
    let laid = validate_segments_lem image parts.valid in
    let listed = load_segments-Lists image image.program_header_count 0 laid.loads laid.found in
    let first : image.program_headers_offset + program_header_size * 0
        ≡ image.program_headers_offset =
      omega arith in
    (
      laid.loads,
      image.program_header_count,
      image.program_headers_offset,
      image.entry,
      λ rounds h.
          collect_lem image rounds image.program_header_count 0 laid.loads h (omega arith)
            laid.found,
      parts.count,
      parts.offset,
      parts.entry,
      subst
          (λ (bs : List ℕ).
            Lists bs image.program_header_count image.program_headers_offset laid.loads)
          parts.same
          (subst (λ (k : ℕ). Lists image.bytes image.program_header_count k laid.loads) first
            listed),
      laid.some_load,
      laid.few,
      subst (λ (bs : List ℕ). All (IsLoadable bs) laid.loads) parts.same laid.loadable,
      readable image laid.loads laid.loadable,
      laid.disjoint,
      laid.entered,
    )
