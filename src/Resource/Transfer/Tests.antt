-- ===== src/Resource/Transfer/Tests.antt =====
-- Runs of the transfer, and its theorems at concrete inputs.
use remote_virtio_gpu.Prelude.{ℕ, ◌%◌, ◌≡◌, refl, List, [], ◌∷◌, ◌++◌, arith, some, overwrite}
use remote_virtio_gpu.Memory.{Memory, Iovec, load}
use remote_virtio_gpu.Wire.{Patch}
use remote_virtio_gpu.Renderer.Load.{loaded, load_resource_patched}
use remote_virtio_gpu.Resource.Transfer.{
  ResInfo, ResTransfer, rvgpu_ctx_transfer_to_host, transfer_size, texture_2d_size,
}
use remote_virtio_gpu.Resource.Format.{
  virgl_format_is_compressed, virgl_format_is_yuv, get_format_bpp,
}
use remote_virtio_gpu.Resource.Transfer.Sync.{transfer_to_host_synced, sent_part}

-- Each byte of the guest's memory is the low part of its address.
abbrev guest : Memory
guest a = a % 256

abbrev two_pages : List Iovec
two_pages = record { iov_base = 16; iov_len = 8 } ∷ record { iov_base = 64; iov_len = 8 } ∷ []

-- A texture of 2 x 2 pixels of 4 bytes.
abbrev texture : ResInfo
texture = record {
  target = 2;
  format = 1;
  width = 2;
  height = 2;
  depth = 1;
  array_size = 1;
  last_level = 0;
  flags = 0;
  bpp = 4;
}

-- Its second row.
abbrev second_row : ResTransfer
second_row = record {
  x = 0;
  y = 1;
  z = 0;
  w = 2;
  h = 1;
  d = 1;
  level = 0;
  stride = 0;
  layer_stride = 0;
  offset = 8;
}

abbrev stack_garbage : Patch
stack_garbage = record { type = 7; offset = 99; len = 5 }

abbrev copy : List ℕ
copy = 0 ∷ 0 ∷ 0 ∷ 0 ∷ 0 ∷ 0 ∷ 0 ∷ 0 ∷ 0 ∷ 0 ∷ 0 ∷ 0 ∷ 0 ∷ 0 ∷ 0 ∷ 0 ∷ []

transfer_to_host_synced_example :
    (out : List ℕ) × (rvgpu_ctx_transfer_to_host guest second_row texture two_pages stack_garbage
      ≡ some out)
    × ((rest : List ℕ)
        → load_resource_patched (out ++ rest) copy
          ≡ loaded (overwrite copy 8 (sent_part guest second_row texture two_pages)) rest)
transfer_to_host_synced_example =
    transfer_to_host_synced guest second_row texture two_pages stack_garbage copy (omega arith)
      (omega arith)

second_row_bytes :
    sent_part guest second_row texture two_pages ≡ 64 ∷ 65 ∷ 66 ∷ 67 ∷ 68 ∷ 69 ∷ 70 ∷ 71 ∷ []
unfolding transfer_size texture_2d_size virgl_format_is_compressed virgl_format_is_yuv
    get_format_bpp load
second_row_bytes = refl
