-- ===== src/Image/Listing.antt =====
-- The load headers of an ELF file, read from its bytes: what the segments of an image are checked
-- against.
use makopa_os.Common.{
  ℕ, zero, suc, ◌+◌, ◌*◌, ◌≡◌, ◌≢◌, ◌⊎◌, sym, ap, ◌∙◌, subst, none, some, List, [], ◌∷◌, arith, ok,
  inl, inr, Result, Option-cases, Result-cases, Bool-cases, ◌==◌, ok_injective,
}
use makopa_os.Image.{
  Segment, ValidatedImage, ProgramHeader, read_u32, read_u64, read_header, segment_of, segment_at,
  program_header_size, program_header_load, Error,
}
use makopa_os.Image.Headers.{load_segments}

-- The header at the offset is one to load, and these are its fields.
pub record IsHeaderOf (bytes : List ℕ) (offset : ℕ) (s : Segment) : Type 0 where
  pub to_load : read_u32 bytes offset ≡ ok program_header_load
  pub flags : read_u32 bytes (offset + 4) ≡ ok s.flags
  pub file_offset : read_u64 bytes (offset + 8) ≡ ok s.file_offset
  pub physical_start : read_u64 bytes (offset + 24) ≡ ok s.physical_start
  pub file_size : read_u64 bytes (offset + 32) ≡ ok s.file_size
  pub memory_size : read_u64 bytes (offset + 40) ≡ ok s.memory_size

-- The header at the offset is of another kind.
abbrev pub IsOther : List ℕ → ℕ → Type 0
IsOther bytes offset = (kind : ℕ) × (read_u32 bytes offset ≡ ok kind) × (kind ≢ program_header_load)

-- The segments are those of the load headers among `n` that follow each other from the offset, in
-- their order.
abbrev pub Lists : List ℕ → ℕ → ℕ → List Segment → Type 0
Lists bytes zero offset ss = ss ≡ []
Lists bytes (suc n) offset ss =
    (IsOther bytes offset × Lists bytes n (offset + program_header_size) ss)
    ⊎ ((s : Segment) × (later : List Segment) × (ss ≡ s ∷ later)
        × IsHeaderOf bytes offset s
        × Lists bytes n (offset + program_header_size) later)

-- The fields of a header that has been read.
header_fields :
    (bytes : List ℕ) (offset : ℕ) (h : ProgramHeader)
    → read_header bytes offset ≡ ok h
    → (read_u32 bytes (offset + 4) ≡ ok h.flags)
      × (read_u64 bytes (offset + 8) ≡ ok h.file_offset)
      × (read_u64 bytes (offset + 24) ≡ ok h.physical_start)
      × (read_u64 bytes (offset + 32) ≡ ok h.file_size)
      × (read_u64 bytes (offset + 40) ≡ ok h.memory_size)
unfolding read_header
header_fields bytes offset h e =
    (ground arith, ground arith, ground arith, ground arith, ground arith)

segment_fields :
    (bytes : List ℕ) (h : ProgramHeader) (s : Segment)
    → segment_of bytes h ≡ ok s
    → (h.flags ≡ s.flags)
      × (h.file_offset ≡ s.file_offset)
      × (h.physical_start ≡ s.physical_start)
      × (h.file_size ≡ s.file_size)
      × (h.memory_size ≡ s.memory_size)
unfolding segment_of
segment_fields bytes h s e = (ground arith, ground arith, ground arith, ground arith, ground arith)

read_header_lem :
    (bytes : List ℕ) (offset : ℕ) (h : ProgramHeader) (s : Segment)
    → read_header bytes offset ≡ ok h
    → segment_of bytes h ≡ ok s
    → read_u32 bytes offset ≡ ok program_header_load
    → IsHeaderOf bytes offset s
read_header_lem bytes offset h s e made kind =
    let (flags, file_offset, start, file_size, memory_size) = header_fields bytes offset h e in
    let (f, o, p, z, m) = segment_fields bytes h s made in
    let same : ℕ → Result Error ℕ = λ x. ok x in
    record {
      to_load = kind;
      flags = flags ∙ ap same f;
      file_offset = file_offset ∙ ap same o;
      physical_start = start ∙ ap same p;
      file_size = file_size ∙ ap same z;
      memory_size = memory_size ∙ ap same m;
    }

abbrev offset_of : ValidatedImage → ℕ → ℕ
offset_of image index = image.program_headers_offset + program_header_size * index

segment_at-none :
    (image : ValidatedImage) (index : ℕ)
    → segment_at image index ≡ ok none
    → IsOther image.bytes (offset_of image index)
unfolding segment_at
segment_at-none image index e = elim (Result-cases (read_u32 image.bytes (offset_of image index))) [
  | inr (x, bad) ↦ absurd (ground arith)
  | inl (kind, read) ↦ elim (Bool-cases (kind == program_header_load)) [
    | inr other ↦ (kind, read, λ same. absurd (ground arith))
    | inl loads ↦ elim (Result-cases (read_header image.bytes (offset_of image index))) [
      | inr (x, bad) ↦ absurd (ground arith)
      | inl (h, good) ↦ elim (Result-cases (segment_of image.bytes h)) [
        | inr (x, bad) ↦ absurd (ground arith)
        | inl (t, made) ↦ absurd (ground arith)
      ]
    ]
  ]
]

segment_at-some :
    (image : ValidatedImage) (index : ℕ) (s : Segment)
    → segment_at image index ≡ ok (some s)
    → IsHeaderOf image.bytes (offset_of image index) s
unfolding segment_at
segment_at-some image index s e =
    elim (Result-cases (read_u32 image.bytes (offset_of image index))) [
      | inr (x, bad) ↦ absurd (ground arith)
      | inl (kind, read) ↦ elim (Result-cases (read_header image.bytes (offset_of image index))) [
        | inr (x, bad) ↦ absurd (ground arith)
        | inl (h, good) ↦ elim (Result-cases (segment_of image.bytes h)) [
          | inr (x, bad) ↦ absurd (ground arith)
          | inl (t, made) ↦
              let same : t ≡ s = ground arith in
              let loads : kind ≡ program_header_load = ground arith in
              read_header_lem image.bytes (offset_of image index) h s good
                (made ∙ ap (λ (x : Segment). ok x) same) (read ∙ ap (λ (x : ℕ). ok x) loads)
        ]
      ]
    ]

pub load_segments-Lists :
    (image : ValidatedImage) (n index : ℕ) (ss : List Segment)
    → load_segments image n index ≡ ok ss
    → Lists image.bytes n (offset_of image index) ss
unfolding load_segments
load_segments-Lists image zero index ss e = sym (ok_injective e)
load_segments-Lists image (suc n) index ss e = elim (Result-cases (segment_at image index)) [
  | inr (x, bad) ↦ absurd (ground arith)
  | inl (found, at) ↦ elim (Result-cases (load_segments image n (index + 1))) [
    | inr (x, bad) ↦ absurd (ground arith)
    | inl (later, rest) ↦
        let next : offset_of image (index + 1) ≡ offset_of image index + program_header_size =
          omega arith in
        let lists =
          subst (λ (k : ℕ). Lists image.bytes n k later) next
            (load_segments-Lists image n (index + 1) later rest) in
        elim (Option-cases found) [
          | inl nothing ↦
              let same : later ≡ ss = ground arith in
              inl (
                segment_at-none image index (rw nothing at at),
                subst
                    (λ (x : List Segment).
                      Lists image.bytes n (offset_of image index + program_header_size) x)
                    same lists,
              )
          | inr (s, present) ↦
              let same : s ∷ later ≡ ss = ground arith in
              inr (s, later, sym same, segment_at-some image index s (rw present at at), lists)
        ]
  ]
]
