-- ===== src/Wire/Laws.antt =====
-- A patch header and a command's header are read back as it was written.
use remote_virtio_gpu.Prelude.{◌<◌, ◌≡◌, refl, arith, length, u32_mod, u16_mod}
use remote_virtio_gpu.Wire.{
  Patch, patch_bytes, patch_of, patch_size, Header, header_bytes, header_of, header_size,
}

pub length-patch_bytes : (p : Patch) → length (patch_bytes p) ≡ patch_size
unfolding patch_bytes
length-patch_bytes p = refl

pub patch_of-patch_bytes :
    (p : Patch) → p.type < 256 → p.offset < u32_mod → p.len < u32_mod → patch_of (patch_bytes p) ≡ p
unfolding patch_of patch_bytes
patch_of-patch_bytes p a b c = ground arith

pub length-header_bytes : (h : Header) → length (header_bytes h) ≡ header_size
unfolding header_bytes
length-header_bytes h = refl

-- The fields of a header are as small as their types.
pub record Fits (h : Header) : Type 0 where
  pub size_small : h.size < u32_mod
  pub idx_small : h.idx < u16_mod
  pub flags_small : h.flags < u16_mod
  pub bpp_small : h.bpp < u32_mod
  pub stride_small : h.stride < u32_mod

pub header_of-header_bytes : (h : Header) → Fits h → header_of (header_bytes h) ≡ h
unfolding header_of header_bytes
header_of-header_bytes h f =
    ground (arith, f.size_small, f.idx_small, f.flags_small, f.bpp_small, f.stride_small)
