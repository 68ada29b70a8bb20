-- ===== src/Wire.antt =====
-- rvgpu-protocol.h: the structures that the two programs send one another, as the bytes that a
-- little-endian host keeps them in. Padding bytes, which nothing reads, are 0.
pub mod Laws
use remote_virtio_gpu.Prelude.{ℕ, ◌+◌, ◌*◌, ◌/◌, ◌%◌, List, [], ◌∷◌, ◌++◌, get_or}

-- A `uint16_t` and a `uint32_t` in memory.
unfoldable pub u16_bytes : ℕ → List ℕ
u16_bytes n = (n % 256) ∷ (n / 256 % 256) ∷ []

unfoldable pub u32_bytes : ℕ → List ℕ
u32_bytes n = (n % 256) ∷ (n / 256 % 256) ∷ (n / 65536 % 256) ∷ (n / 16777216 % 256) ∷ []

-- The `uint32_t` that stands at an index of a buffer.
unfoldable pub u32_at : List ℕ → ℕ → ℕ
u32_at bs i =
    get_or bs i 0
    + 256 * get_or bs (i + 1) 0
    + 65536 * get_or bs (i + 2) 0
    + 16777216 * get_or bs (i + 3) 0

-- `struct rvgpu_patch`
pub record Patch : Type 0 where
  pub type : ℕ
  pub offset : ℕ
  pub len : ℕ

abbrev pub patch_size : ℕ
patch_size = 12

-- RVGPU_PATCH_RES
abbrev pub patch_res : ℕ
patch_res = 1

unfoldable pub patch_bytes : Patch → List ℕ
unfolding u32_bytes
patch_bytes p = (p.type % 256) ∷ 0 ∷ 0 ∷ 0 ∷ (u32_bytes p.offset ++ u32_bytes p.len)

unfoldable pub patch_of : List ℕ → Patch
unfolding u32_at
patch_of bs = record { type = get_or bs 0 0; offset = u32_at bs 4; len = u32_at bs 8 }

-- `struct rvgpu_header`
pub record Header : Type 0 where
  pub size : ℕ
  pub idx : ℕ
  pub flags : ℕ
  pub bpp : ℕ
  pub stride : ℕ

unfoldable pub header_bytes : Header → List ℕ
unfolding u32_bytes u16_bytes
header_bytes h =
    u32_bytes h.size
    ++ (u16_bytes h.idx ++ (u16_bytes h.flags ++ (u32_bytes h.bpp ++ u32_bytes h.stride)))

-- The `uint16_t` that stands at an index of a buffer.
unfoldable pub u16_at : List ℕ → ℕ → ℕ
u16_at bs i = get_or bs i 0 + 256 * get_or bs (i + 1) 0

abbrev pub header_size : ℕ
header_size = 16

unfoldable pub header_of : List ℕ → Header
unfolding u32_at u16_at
header_of bs = record {
  size = u32_at bs 0;
  idx = u16_at bs 4;
  flags = u16_at bs 6;
  bpp = u32_at bs 8;
  stride = u32_at bs 12;
}
