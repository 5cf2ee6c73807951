-- ===== src/Boot.antt =====
-- crates/boot-contract/src/lib.rs: the handoff from the loader to the kernel.
pub mod Validate
pub mod Ranges
pub mod Normalize
use makopa_os.Common.{
  ℕ, ◌^◌, ◌-◌, ◌||◌, ◌&&◌, not, Bool, true, false, List, [], ◌∷◌, leb, ◌==◌, ◌/=◌, bit_and,
  if◌then◌else◌,
}

abbrev pub page_size : ℕ
page_size = 4096

abbrev pub max_memory_regions : ℕ
max_memory_regions = 1024

abbrev pub memory_usable : ℕ
memory_usable = 1

abbrev pub memory_mmio : ℕ
memory_mmio = 5

abbrev pub pixel_format_rgb : ℕ
pixel_format_rgb = 1

abbrev pub pixel_format_bgr : ℕ
pixel_format_bgr = 2

abbrev pub framebuffer_present : ℕ
framebuffer_present = 1

abbrev pub abi_major_v1 : ℕ
abi_major_v1 = 1

abbrev pub abi_minor_v1 : ℕ
abi_minor_v1 = 0

-- `*b"MAKOPA\0\0"`.
abbrev pub handoff_magic : List ℕ
handoff_magic = b'M' ∷ b'A' ∷ b'K' ∷ b'O' ∷ b'P' ∷ b'A' ∷ 0 ∷ 0 ∷ []

-- `size_of` and `align_of` of the `#[repr(C)]` types.
abbrev pub header_size_v1 : ℕ
header_size_v1 = 32

abbrev pub handoff_size_v1 : ℕ
handoff_size_v1 = 88

abbrev pub region_entry_size_v1 : ℕ
region_entry_size_v1 = 24

abbrev pub struct_alignment : ℕ
struct_alignment = 8

abbrev pub is_known_memory_kind : ℕ → Bool
is_known_memory_kind kind = leb kind memory_mmio

pub record BootHandoffHeaderV1 : Type 0 where
  pub magic : List ℕ  -- [u8; 8]
  pub abi_major : ℕ  -- u16
  pub abi_minor : ℕ  -- u16
  pub header_size : ℕ  -- u32
  pub handoff_size : ℕ  -- u32
  pub flags : ℕ  -- u32
  pub reserved : ℕ

pub record MemoryRegionV1 : Type 0 where
  pub physical_start : ℕ
  pub page_count : ℕ
  pub kind : ℕ  -- u32
  pub attributes : ℕ  -- u32

pub record FramebufferV1 : Type 0 where
  pub physical_start : ℕ
  pub byte_length : ℕ
  pub width : ℕ  -- u32
  pub height : ℕ  -- u32
  pub stride_pixels : ℕ  -- u32
  pub pixel_format : ℕ  -- u32
  pub reserved : ℕ

-- `FramebufferV1::is_zero`.
abbrev pub is_zero : FramebufferV1 → Bool
is_zero f =
    f.physical_start == 0
    && f.byte_length == 0
    && f.width == 0
    && f.height == 0
    && f.stride_pixels == 0
    && f.pixel_format == 0
    && f.reserved == 0

pub record BootHandoffV1 : Type 0 where
  pub header : BootHandoffHeaderV1
  pub memory_regions_address : ℕ
  pub memory_region_count : ℕ  -- u32
  pub memory_region_entry_size : ℕ  -- u32
  pub framebuffer : FramebufferV1

-- `==` on byte arrays of one length.
unfoldable pub same_bytes : List ℕ → List ℕ → Bool
same_bytes [] [] = true
same_bytes (a ∷ as_) (b ∷ bs) = a == b && same_bytes as_ bs
same_bytes _ _ = false
