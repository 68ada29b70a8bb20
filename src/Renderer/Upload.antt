-- ===== src/Renderer/Upload.antt =====
-- rvgpu-virgl.c: `upload_resource`, what the renderer answers to a transfer from the host.
use remote_virtio_gpu.Prelude.{
  ℕ, ◌%◌, List, Option, none, some, length, take, drop, ltb, if◌then◌else◌, add32, sub32, mul32,
  sub64, u32_mod,
}
use remote_virtio_gpu.Wire.{Patch, Header}
use remote_virtio_gpu.Virtio.{Transfer3d}

-- What is written behind the message RVGPU_RES_TRANSFER.
pub record Upload : Type 0 where
  pub header : Header
  pub transfer : Transfer3d
  pub patch : Patch
  pub bytes : List ℕ

-- `sizeof(struct virtio_gpu_transfer_host_3d)`
abbrev pub transfer_host_3d_size : ℕ
transfer_host_3d_size = 72

-- The length of the box in the resource.
abbrev pub box_length : Transfer3d → ℕ → ℕ → ℕ
box_length t bpp stride = add32 (mul32 (sub32 t.box.h 1) stride) (mul32 t.box.w bpp)

abbrev pub upload_patch : ℕ → Transfer3d → ℕ → ℕ → Patch
upload_patch iov_len t bpp stride =
    let offset = t.offset % u32_mod in
    let left = sub64 iov_len offset % u32_mod in
    let length = box_length t bpp stride in
    record { type = 0; offset = offset; len = if ltb length left then length else left }

-- `memory` is the memory of the resource, `none` the null pointer, where `err` ends the program.
unfoldable pub upload_resource : Option (List ℕ) → Transfer3d → ℕ → ℕ → Option Upload
upload_resource none t bpp stride = none
upload_resource (some memory) t bpp stride =
    let patch = upload_patch (length memory) t bpp stride in
    some (record {
      header = record {
        size = transfer_host_3d_size;
        idx = 0;
        flags = 0;
        bpp = bpp;
        stride = stride;
      };
      transfer = t;
      patch = patch;
      bytes = take patch.len (drop patch.offset memory);
    })
