-- ===== src/Examples/Image.antt =====
-- The smallest image: the ELF header, one program header, and two pages of memory that hold the file.
use makopa_os.Common.{◌≡◌, refl, List, [], ◌∷◌, ok, err, ℕ, set}
use makopa_os.Boot.{same_bytes}
use makopa_os.Image.{
  ValidatedImage, parse, check_elf_header, read_le, validate_segments, check_segments, check_priors,
  memory_end, segment_at, segment_of, read_header, unsupported_machine,
}
use makopa_os.Image.Listing.{Lists}
use makopa_os.Image.Iterator.{parse_lem}

abbrev file : List ℕ
file =
    127 ∷ 69 ∷ 76 ∷ 70 ∷ 2 ∷ 1 ∷ 1 ∷ 0 ∷ 0 ∷ 0 ∷ 0 ∷ 0 ∷ 0 ∷ 0 ∷ 0 ∷ 0 ∷ 2 ∷ 0 ∷ 62 ∷ 0 ∷ 1 ∷ 0 ∷ 0
    ∷ 0 ∷ 0 ∷ 0 ∷ 16 ∷ 0 ∷ 0 ∷ 0 ∷ 0 ∷ 0 ∷ 64 ∷ 0 ∷ 0 ∷ 0 ∷ 0 ∷ 0 ∷ 0 ∷ 0 ∷ 0 ∷ 0 ∷ 0 ∷ 0 ∷ 0 ∷ 0
    ∷ 0 ∷ 0 ∷ 0 ∷ 0 ∷ 0 ∷ 0 ∷ 64 ∷ 0 ∷ 56 ∷ 0 ∷ 1 ∷ 0 ∷ 0 ∷ 0 ∷ 0 ∷ 0 ∷ 0 ∷ 0 ∷ 1 ∷ 0 ∷ 0 ∷ 0 ∷ 5
    ∷ 0 ∷ 0 ∷ 0 ∷ 0 ∷ 0 ∷ 0 ∷ 0 ∷ 0 ∷ 0 ∷ 0 ∷ 0 ∷ 0 ∷ 0 ∷ 16 ∷ 0 ∷ 0 ∷ 0 ∷ 0 ∷ 0 ∷ 0 ∷ 0 ∷ 16 ∷ 0
    ∷ 0 ∷ 0 ∷ 0 ∷ 0 ∷ 120 ∷ 0 ∷ 0 ∷ 0 ∷ 0 ∷ 0 ∷ 0 ∷ 0 ∷ 0 ∷ 32 ∷ 0 ∷ 0 ∷ 0 ∷ 0 ∷ 0 ∷ 0 ∷ 0 ∷ 16 ∷ 0
    ∷ 0 ∷ 0 ∷ 0 ∷ 0 ∷ 0 ∷ []

abbrev image : ValidatedImage
image = record {
  bytes = file;
  entry = 1048576;
  program_headers_offset = 64;
  program_header_count = 1;
}

parsed : parse file ≡ ok image
unfolding parse check_elf_header read_le same_bytes validate_segments check_segments check_priors
    memory_end segment_at segment_of read_header
parsed = refl

-- Another machine.
foreign : parse (set file 18 3) ≡ err unsupported_machine
unfolding parse check_elf_header read_le same_bytes validate_segments check_segments check_priors
    memory_end segment_at segment_of read_header
foreign = refl

parse_lem_example :
    Lists file
      (parse_lem file image parsed).1
      (parse_lem file image parsed).2
      (parse_lem file image parsed).0
parse_lem_example = (parse_lem file image parsed).8
