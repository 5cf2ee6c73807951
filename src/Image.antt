-- ===== src/Image.antt =====
-- crates/kernel-image/src/lib.rs: the kernel's ELF file as the loader reads it. A slice of bytes is
-- a list of numbers below 256; `usize` is 64 bits, so `usize::try_from` a u64 does not fail.
pub mod Headers
pub mod Loads
pub mod Listing
pub mod Iterator
use makopa_os.Common.{
  ℕ, zero, suc, ◌+◌, ◌-◌, ◌*◌, ◌/◌, ◌%◌, ◌||◌, ◌&&◌, not, Bool, true, false, Option, none, some,
  List, [], ◌∷◌, ltb, leb, ◌==◌, ◌/=◌, if◌then◌else◌, length, Result, ok, err, ◌>>=◌, ◌>>◌,
  reject_if, ok_or, checked_add, checked_mul, bit_and, get_or,
}
use makopa_os.Boot.{page_size, same_bytes}

abbrev pub elf_header_size : ℕ
elf_header_size = 64

abbrev pub program_header_size : ℕ
program_header_size = 56

abbrev pub program_header_load : ℕ
program_header_load = 1

abbrev pub program_flag_execute : ℕ
program_flag_execute = 1

abbrev pub elf_machine_x86_64 : ℕ
elf_machine_x86_64 = 62

abbrev pub elf_type_executable : ℕ
elf_type_executable = 2

abbrev pub minimum_load_address : ℕ
minimum_load_address = 1048576

abbrev pub maximum_load_segments : ℕ
maximum_load_segments = 16

pub data Error : Type 0 where
  image_too_small invalid_magic unsupported_class unsupported_endianness : Error
  unsupported_version unsupported_type unsupported_machine invalid_header_size : Error
  invalid_program_header_size missing_program_headers too_many_load_segments : Error
  program_header_table_out_of_bounds segment_out_of_bounds : Error
  segment_files_larger_than_memory segment_address_mismatch segment_address_too_low : Error
  segment_alignment segment_overlap entry_not_executable arithmetic_overflow : Error

pub record Segment : Type 0 where
  pub file_offset : ℕ
  pub file_size : ℕ
  pub physical_start : ℕ
  pub memory_size : ℕ
  pub flags : ℕ

abbrev pub is_executable : Segment → Bool
is_executable s = bit_and s.flags program_flag_execute /= 0

unfoldable pub memory_end : Segment → Result Error ℕ
memory_end s = ok_or (checked_add s.physical_start s.memory_size) arithmetic_overflow

-- `div_ceil`.
abbrev pub page_count : Segment → ℕ
page_count s = (s.memory_size + page_size - 1) / page_size

pub record ValidatedImage : Type 0 where
  pub bytes : List ℕ
  pub entry : ℕ
  pub program_headers_offset : ℕ
  pub program_header_count : ℕ

-- The first `n` of the bytes, if there are as many.
abbrev pub prefix : List ℕ → ℕ → Option (List ℕ)
prefix xs zero = some []
prefix [] (suc n) = none
prefix (x ∷ xs) (suc n) = elim (prefix xs n) [ none ↦ none | some ys ↦ some (x ∷ ys) ]

-- `bytes.get(offset..offset + n)`.
abbrev pub slice : List ℕ → ℕ → ℕ → Option (List ℕ)
slice bytes zero n = prefix bytes n
slice [] (suc o) n = none
slice (x ∷ xs) (suc o) n = slice xs o n

-- `from_le_bytes`.
abbrev pub from_le_bytes : List ℕ → ℕ
from_le_bytes [] = 0
from_le_bytes (x ∷ xs) = x + 256 * from_le_bytes xs

-- `read_u16`, `read_u32` and `read_u64` read 2, 4 and 8 bytes.
unfoldable pub read_le : ℕ → List ℕ → ℕ → Result Error ℕ
read_le n bytes offset = do
  value ← ok_or (slice bytes offset n) image_too_small
  ok (from_le_bytes value)

abbrev pub read_u16 : List ℕ → ℕ → Result Error ℕ
read_u16 bytes offset = read_le 2 bytes offset

abbrev pub read_u32 : List ℕ → ℕ → Result Error ℕ
read_u32 bytes offset = read_le 4 bytes offset

abbrev pub read_u64 : List ℕ → ℕ → Result Error ℕ
read_u64 bytes offset = read_le 8 bytes offset

abbrev pub ranges_overlap : ℕ → ℕ → ℕ → ℕ → Bool
ranges_overlap left_start left_end right_start right_end =
    ltb left_start right_end && ltb right_start left_end

abbrev pub is_power_of_two : ℕ → Bool
is_power_of_two a = a /= 0 && bit_and a (a - 1) == 0

-- What `segment_at` reads of a load header, and its tests.
pub record ProgramHeader : Type 0 where
  pub flags : ℕ
  pub file_offset : ℕ
  pub virtual_start : ℕ
  pub physical_start : ℕ
  pub file_size : ℕ
  pub memory_size : ℕ
  pub alignment : ℕ

unfoldable pub read_header : List ℕ → ℕ → Result Error ProgramHeader
unfolding read_le
read_header bytes offset = do
  flags ← read_u32 bytes (offset + 4)
  file_offset ← read_u64 bytes (offset + 8)
  virtual_start ← read_u64 bytes (offset + 16)
  physical_start ← read_u64 bytes (offset + 24)
  file_size ← read_u64 bytes (offset + 32)
  memory_size ← read_u64 bytes (offset + 40)
  alignment ← read_u64 bytes (offset + 48)
  ok (record {
    flags = flags;
    file_offset = file_offset;
    virtual_start = virtual_start;
    physical_start = physical_start;
    file_size = file_size;
    memory_size = memory_size;
    alignment = alignment;
  })

unfoldable pub segment_of : List ℕ → ProgramHeader → Result Error Segment
segment_of bytes h = do
  reject_if (ltb h.memory_size h.file_size || h.memory_size == 0) segment_files_larger_than_memory
  reject_if (h.virtual_start /= h.physical_start) segment_address_mismatch
  reject_if (ltb h.physical_start minimum_load_address) segment_address_too_low
  reject_if
      (h.physical_start % page_size /= 0
        || ltb h.alignment page_size
        || not (is_power_of_two h.alignment)
        || h.file_offset % h.alignment /= h.virtual_start % h.alignment)
      segment_alignment
  file_end ← ok_or (checked_add h.file_offset h.file_size) arithmetic_overflow
  reject_if (ltb (length bytes) file_end) segment_out_of_bounds
  memory_end ← ok_or (checked_add h.physical_start h.memory_size) arithmetic_overflow
  ok (record {
    file_offset = h.file_offset;
    file_size = h.file_size;
    physical_start = h.physical_start;
    memory_size = h.memory_size;
    flags = h.flags;
  })

unfoldable pub segment_at : ValidatedImage → ℕ → Result Error (Option Segment)
unfolding read_le read_header segment_of
segment_at image index = do
  product ← ok_or (checked_mul program_header_size index) arithmetic_overflow
  offset ← ok_or (checked_add image.program_headers_offset product) arithmetic_overflow
  kind ← read_u32 image.bytes offset
  (if kind /= program_header_load then ok none else do
    header ← read_header image.bytes offset
    segment ← segment_of image.bytes header
    ok (some segment))

-- The loop over the headers before `index`, of which `remaining` are left.
unfoldable pub check_priors : ValidatedImage → Segment → ℕ → ℕ → ℕ → Result Error (Unit {0})
unfolding segment_at memory_end
check_priors image segment segment_end zero prior_index = ok tt
check_priors image segment segment_end (suc remaining) prior_index =
    let rest = check_priors image segment segment_end remaining (prior_index + 1) in
    do
      prior ← segment_at image prior_index
      elim prior [
        | none ↦ rest
        | some p ↦ do
          prior_end ← memory_end p
          reject_if (ranges_overlap segment.physical_start segment_end p.physical_start prior_end)
              segment_overlap
          rest
      ]

-- The loop over the headers from `index`, of which `remaining` are left: the count of the load
-- segments and whether one that is executable holds the entry.
unfoldable pub check_segments : ValidatedImage → ℕ → ℕ → ℕ → Bool → Result Error (ℕ × Bool)
unfolding segment_at memory_end check_priors
check_segments image zero index load_segments entry_is_executable =
    ok (load_segments, entry_is_executable)
check_segments image (suc remaining) index load_segments entry_is_executable =
    let rest = λ (n : ℕ) (b : Bool). check_segments image remaining (index + 1) n b in
    do
      found ← segment_at image index
      elim found [
        | none ↦ rest load_segments entry_is_executable
        | some segment ↦ do
          reject_if (ltb maximum_load_segments (load_segments + 1)) too_many_load_segments
          segment_end ← memory_end segment
          check_priors image segment segment_end index 0
          rest (load_segments + 1) (
              entry_is_executable
              || (is_executable segment
                  && leb segment.physical_start image.entry
                  && ltb image.entry segment_end))
      ]

unfoldable pub validate_segments : ValidatedImage → Result Error (Unit {0})
unfolding check_segments
validate_segments image = do
  (load_segments, entry_is_executable) ← check_segments image image.program_header_count 0 0 false
  reject_if (load_segments == 0) missing_program_headers
  reject_if (not entry_is_executable) entry_not_executable

-- `b"\x7fELF"`.
abbrev pub elf_magic : List ℕ
elf_magic = 127 ∷ b'E' ∷ b'L' ∷ b'F' ∷ []

abbrev pub has_magic : List ℕ → Bool
has_magic bytes = elim (slice bytes 0 4) [ none ↦ false | some xs ↦ same_bytes xs elf_magic ]

-- The ELF header's own tests.
unfoldable pub check_elf_header : List ℕ → Result Error (Unit {0})
unfolding read_le same_bytes
check_elf_header bytes = do
  reject_if (ltb (length bytes) elf_header_size) image_too_small
  reject_if (not (has_magic bytes)) invalid_magic
  reject_if (get_or bytes 4 0 /= 2) unsupported_class
  reject_if (get_or bytes 5 0 /= 1) unsupported_endianness
  reject_if (get_or bytes 6 0 /= 1) unsupported_version
  version ← read_u32 bytes 20
  reject_if (version /= 1) unsupported_version
  elf_type ← read_u16 bytes 16
  reject_if (elf_type /= elf_type_executable) unsupported_type
  machine ← read_u16 bytes 18
  reject_if (machine /= elf_machine_x86_64) unsupported_machine
  header_size ← read_u16 bytes 52
  reject_if (header_size /= elf_header_size) invalid_header_size
  entry_size ← read_u16 bytes 54
  reject_if (entry_size /= program_header_size) invalid_program_header_size

unfoldable pub parse : List ℕ → Result Error ValidatedImage
unfolding read_le check_elf_header validate_segments
parse bytes = do
  check_elf_header bytes
  program_header_count ← read_u16 bytes 56
  reject_if (program_header_count == 0) missing_program_headers
  program_headers_offset ← read_u64 bytes 32
  table_size ← ok_or (checked_mul program_header_size program_header_count) arithmetic_overflow
  table_end ← ok_or (checked_add program_headers_offset table_size) arithmetic_overflow
  reject_if (ltb (length bytes) table_end) program_header_table_out_of_bounds
  entry ← read_u64 bytes 24
  let image : ValidatedImage = record {
    bytes = bytes;
    entry = entry;
    program_headers_offset = program_headers_offset;
    program_header_count = program_header_count;
  }
  validate_segments image
  ok image

-- The indexing panics out of bounds, which is `none` here.
unfoldable pub file_bytes : ValidatedImage → Segment → Option (List ℕ)
file_bytes image segment = slice image.bytes segment.file_offset segment.file_size

-- The iterator over the load segments.
pub record Segments : Type 0 where
  pub image : ValidatedImage
  pub next_index : ℕ

-- `unreachable!`.
pub data Panic : Type 0 where
  validated_program_header_changed : Panic

-- The loop of `next`, with `remaining` headers left.
unfoldable pub next_within : ℕ → Segments → Result Panic (Option Segment × Segments)
next_within zero s = ok (none, s)
next_within (suc remaining) s =
    let rest = next_within remaining (record s { next_index = s.next_index + 1 }) in
    elim (segment_at s.image s.next_index) [
      | ok found ↦ elim found [
        | none ↦ rest
        | some segment ↦ ok (some segment, record s { next_index = s.next_index + 1 })
      ]
      | err e ↦ err validated_program_header_changed
    ]

unfoldable pub next : Segments → Result Panic (Option Segment × Segments)
next s = next_within (s.image.program_header_count - s.next_index) s

abbrev pub segments : ValidatedImage → Segments
segments image = record { image = image; next_index = 0 }
