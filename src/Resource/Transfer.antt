-- ===== src/Resource/Transfer.antt =====
-- rvgpu-res.c: how many bytes of a resource are sent, and `rvgpu_ctx_transfer_to_host`. The
-- structures are those of rvgpu-plugin.h; all their fields are `uint32_t` but the offset.
pub mod Sync
mod Tests
use remote_virtio_gpu.Prelude.{
  ℕ, ◌+◌, ◌*◌, ◌/◌, ◌-◌, ◌^◌, List, [], ◌∷◌, ◌++◌, Option, none, some, Bool, ◌&&◌, ltb, ◌==◌, ◌!=◌,
  if◌then◌else◌, add32, sub32, mul32, u64_mod,
}
use remote_virtio_gpu.Memory.{Memory, Iovec}
use remote_virtio_gpu.Wire.{Patch, patch_bytes}
use remote_virtio_gpu.Patch.{gpu_device_send_data}
use remote_virtio_gpu.Resource.Format.{
  elem, format_yv12, format_nv12, format_p010, virgl_format_is_yuv, virgl_format_is_compressed,
  get_format_bpp,
}

-- `struct rvgpu_res_info`
pub record ResInfo : Type 0 where
  pub target : ℕ
  pub format : ℕ
  pub width : ℕ
  pub height : ℕ
  pub depth : ℕ
  pub array_size : ℕ
  pub last_level : ℕ
  pub flags : ℕ
  pub bpp : ℕ

-- `struct rvgpu_res`. `backing` is `none` for the null pointer; `nbacking` is its length.
pub record Res : Type 0 where
  pub resid : ℕ
  pub backing : Option (List Iovec)
  pub info : ResInfo

-- `struct rvgpu_res_transfer`
pub record ResTransfer : Type 0 where
  pub x : ℕ
  pub y : ℕ
  pub z : ℕ
  pub w : ℕ
  pub h : ℕ
  pub d : ℕ
  pub level : ℕ
  pub stride : ℕ
  pub layer_stride : ℕ
  pub offset : ℕ

-- `(n + (a - 1)) & ~(a - 1)`: for the powers of 2 that it is called with, the mask clears the
-- remainder by `a`.
abbrev pub align_up_power_of_2 : ℕ → ℕ → ℕ
align_up_power_of_2 n a = add32 n (a - 1) / a * a

-- The planes behind the luminance: their width and their number.
abbrev uv_planes : ℕ → ℕ → Option (ℕ × ℕ)
uv_planes format width =
    if elem format (format_nv12 ∷ format_p010 ∷ [])
    then some (width, 1)
    else if format == format_yv12
    then some (width / 2, 2)
    else none

unfoldable pub yuv_data_size : ℕ → ℕ → ℕ → ℕ → ℕ
yuv_data_size format width height stride =
    let bpp = if format == format_p010 then 2 else 1 in
    let y_align = if format == format_yv12 then 32 else 16 in
    let y_stride = if stride != 0 then stride else mul32 (align_up_power_of_2 width y_align) bpp in
    let y_size = mul32 y_stride height in
    let uv_height = height / 2 in
    elim (uv_planes format width) [
      | none ↦ 0
      | some (uv_width, uv_plane_count) ↦
          let uv_stride = mul32 (align_up_power_of_2 uv_width 16) bpp in
          let uv_size = mul32 (mul32 uv_stride uv_height) uv_plane_count in add32 y_size uv_size
    ]

-- `((width + (bw - 1)) / bw) * ((height + (bh - 1)) / bh) * bytes`, in `uint32_t`.
abbrev pub block_size : ℕ → ℕ → ℕ → ℕ → ℕ → ℕ
block_size bw bh bytes width height =
    mul32 (mul32 (add32 width (bw - 1) / bw) (add32 height (bh - 1) / bh)) bytes

-- The cases of the `switch`, in its order: DXT1; DXT3 and DXT5; RGTC1; RGTC2; ETC1, ETC2 and EAC R11;
-- ETC2 RGBA and EAC RG11; ASTC by its blocks.
unfoldable pub compressed_data_size : ℕ → ℕ → ℕ → ℕ
compressed_data_size format width height =
    if elem format (105 ∷ 106 ∷ 109 ∷ 110 ∷ [])
    then block_size 4 4 8 width height
    else if elem format (107 ∷ 108 ∷ 111 ∷ 112 ∷ [])
    then block_size 4 4 16 width height
    else if elem format (113 ∷ 114 ∷ [])
    then block_size 4 4 8 width height
    else if elem format (115 ∷ 116 ∷ [])
    then block_size 4 4 16 width height
    else if elem format (226 ∷ 269 ∷ 270 ∷ 271 ∷ 272 ∷ 275 ∷ 276 ∷ [])
    then block_size 4 4 8 width height
    else if elem format (273 ∷ 274 ∷ 277 ∷ 278 ∷ [])
    then block_size 4 4 16 width height
    else if elem format (279 ∷ 293 ∷ [])
    then block_size 4 4 16 width height
    else if elem format (280 ∷ 294 ∷ [])
    then block_size 5 4 16 width height
    else if elem format (281 ∷ 295 ∷ [])
    then block_size 5 5 16 width height
    else if elem format (282 ∷ 296 ∷ [])
    then block_size 6 5 16 width height
    else if elem format (283 ∷ 297 ∷ [])
    then block_size 6 6 16 width height
    else if elem format (284 ∷ 298 ∷ [])
    then block_size 8 5 16 width height
    else if elem format (285 ∷ 299 ∷ [])
    then block_size 8 6 16 width height
    else if elem format (286 ∷ 300 ∷ [])
    then block_size 8 8 16 width height
    else if elem format (287 ∷ 301 ∷ [])
    then block_size 10 5 16 width height
    else if elem format (288 ∷ 302 ∷ [])
    then block_size 10 6 16 width height
    else if elem format (289 ∷ 303 ∷ [])
    then block_size 10 8 16 width height
    else if elem format (290 ∷ 304 ∷ [])
    then block_size 10 10 16 width height
    else if elem format (291 ∷ 305 ∷ [])
    then block_size 12 10 16 width height
    else if elem format (292 ∷ 306 ∷ [])
    then block_size 12 12 16 width height
    else 0

-- `(h - 1U) * stride + w * bpp`, in `unsigned int`.
abbrev pub rows_size : ℕ → ℕ → ℕ → ℕ → ℕ
rows_size w h stride bpp = add32 (mul32 (sub32 h 1) stride) (mul32 w bpp)

-- The size for target 0, a buffer.
unfoldable pub buffer_size : ResTransfer → ℕ
buffer_size t =
    if ltb 0 t.stride
    then if ltb 1 t.d && ltb 1 t.h
      then mul32 (mul32 t.d t.h) t.stride
      else if ltb 1 t.h
      then mul32 t.h t.stride
      else if ltb 0 t.w
      then t.stride
      else 0
    else if ltb 0 t.w
    then t.w
    else 0

-- The size for target 2, a 2D texture.
unfoldable pub texture_2d_size : ResInfo → ResTransfer → ℕ
texture_2d_size info t =
    if virgl_format_is_compressed info.format
    then compressed_data_size info.format t.w t.h
    else if virgl_format_is_yuv info.format
    then yuv_data_size info.format t.w t.h t.stride
    else let bpp = get_format_bpp info.format in
      let stride = if t.stride != 0 then t.stride else mul32 bpp info.width in
      rows_size t.w t.h stride bpp

-- The size for target 3, a 3D texture, whose levels halve its sides.
unfoldable pub texture_3d_size : ResInfo → ResTransfer → ℕ
texture_3d_size info t =
    let bpp = get_format_bpp info.format in
    let width = info.width / 2 ^ t.level in
    let height = info.height / 2 ^ t.level in
    let stride = if t.stride != 0 then t.stride else mul32 bpp width in
    let layer_stride = if t.layer_stride != 0 then t.layer_stride else mul32 stride height in
    add32 (rows_size t.w t.h stride bpp) (mul32 layer_stride (sub32 t.d 1))

-- SIZE_MAX
abbrev pub size_max : ℕ
size_max = u64_mod - 1

-- The length that `rvgpu_ctx_transfer_to_host` hands to `gpu_device_send_data`.
unfoldable pub transfer_size : ResInfo → ResTransfer → ℕ
transfer_size info t =
    if info.target == 0
    then buffer_size t
    else if info.target == 2
    then texture_2d_size info t
    else if info.target == 3
    then texture_3d_size info t
    else size_max

-- The patch of length 0 that is sent behind the data, `struct rvgpu_patch p = { .len = 0 }`.
abbrev pub end_patch : Patch
end_patch = record { type = 0; offset = 0; len = 0 }

-- What is sent, in order; `none` is a failed `assert`. For target 0 there is no call of
-- `gpu_device_send_data` at size 0. `backing` is the array of the resource.
unfoldable pub rvgpu_ctx_transfer_to_host :
    Memory → ResTransfer → ResInfo → List Iovec → Patch → Option (List ℕ)
rvgpu_ctx_transfer_to_host mem t info backing garbage =
    let size = transfer_size info t in
    if info.target == 0 && size == 0
    then some (patch_bytes end_patch)
    else elim (gpu_device_send_data mem backing t.offset size garbage) [
      | none ↦ none
      | some out ↦ some (out ++ patch_bytes end_patch)
    ]
