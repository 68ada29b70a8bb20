-- ===== src/Device/FromHost/Tests.antt =====
-- A transfer from the host at a concrete input.
use remote_virtio_gpu.Prelude.{
  ℕ, ◌%◌, ◌≡◌, List, [], ◌∷◌, ◌++◌, some, arith, take, drop, overwrite, inr, true, refl, replicate,
}
use remote_virtio_gpu.Memory.{Memory, Iovec, flatten}
use remote_virtio_gpu.Virtio.{Transfer3d}
use remote_virtio_gpu.Renderer.Upload.{Upload, upload_resource}
use remote_virtio_gpu.Device.FromHost.{resource_update}
use remote_virtio_gpu.Device.FromHost.Synced.{transfer_from_host_synced}
use remote_virtio_gpu.Resource.Transfer.{Res}
use remote_virtio_gpu.Resource.Table.{res_find}
use remote_virtio_gpu.Resource.Format.{get_format_bpp}
use remote_virtio_gpu.Device.FromHost.Box.{
  Lines, copied, too_small, overrun, copy_lines, copy_line, find_line,
}
use remote_virtio_gpu.Device.FromHost.BoxLines.{with_lines}
use remote_virtio_gpu.Device.FromHost.Message.{transfer_of, returned, resource_transfer}
use remote_virtio_gpu.Device.FromHost.BoxSynced.{upload_bytes, box_from_host_synced}

abbrev guest : Memory
guest a = a % 256

-- Four and eight bytes of the guest, and the renderer's copy of them.
abbrev backing : List Iovec
backing = record { iov_base = 16; iov_len = 4 } ∷ record { iov_base = 64; iov_len = 8 } ∷ []

abbrev copy : List ℕ
copy = 1 ∷ 2 ∷ 3 ∷ 4 ∷ 5 ∷ 6 ∷ 7 ∷ 8 ∷ 9 ∷ 10 ∷ 11 ∷ 12 ∷ []

-- One pixel of four bytes, from the third byte on.
abbrev pixel : Transfer3d
pixel = record {
  box = record { x = 0; y = 0; z = 0; w = 1; h = 1; d = 1 };
  offset = 2;
  resource_id = 3;
  level = 0;
  stride = 0;
  layer_stride = 0;
}

transfer_from_host_synced_example :
    (u : Upload) × (m : Memory) × (upload_resource (some copy) pixel 4 4 ≡ some u)
    × (resource_update guest backing u.patch.offset u.patch.len (u.bytes ++ (9 ∷ []))
        ≡ some (m, 9 ∷ []))
    × (flatten m backing ≡ overwrite (flatten guest backing) 2 (take u.patch.len (drop 2 copy)))
transfer_from_host_synced_example =
    transfer_from_host_synced guest backing copy pixel 4 4 (9 ∷ [])
      ((inr (omega arith), tt), (tt, tt)) (omega arith) (omega arith) (omega arith)

-- A resource of two lines of two pixels, over buffers of six and ten bytes.
abbrev image : Res
image = record {
  resid = 3;
  backing =
      some (record { iov_base = 16; iov_len = 6 } ∷ record { iov_base = 64; iov_len = 10 } ∷ []);
  info = record {
    target = 2;
    format = 1;
    width = 2;
    height = 2;
    depth = 1;
    array_size = 1;
    last_level = 0;
    flags = 0;
    bpp = 4;
  };
}

abbrev parts : List Iovec
parts = record { iov_base = 16; iov_len = 6 } ∷ record { iov_base = 64; iov_len = 10 } ∷ []

abbrev picture : List ℕ
picture = copy ++ (13 ∷ 14 ∷ 15 ∷ 16 ∷ [])

-- The right column of the resource, as the transfer stands in memory.
abbrev column : List ℕ
column =
    replicate 36 0
    ++ (1 ∷ 0 ∷ 0 ∷ 0 ∷ 2 ∷ 0 ∷ 0 ∷ 0 ∷ 1 ∷ 0 ∷ 0 ∷ 0 ∷ 4 ∷ 0 ∷ 0 ∷ 0 ∷ 0 ∷ 0 ∷ 0 ∷ 0 ∷ 3 ∷ [])
    ++ replicate 15 0

abbrev bytes_missing : Lines → ℕ
bytes_missing (copied m) = 0
bytes_missing (too_small m n) = n
bytes_missing overrun = 0

-- The lines of a box for which the buffers are too small.
missing_bytes : bytes_missing (copy_lines 2 0 guest backing 0 4 6 4 copy) ≡ 2
unfolding copy_lines copy_line find_line
missing_bytes = refl

box_from_host_synced_example :
    (u : Upload) × (m : Memory) × (upload_resource (some picture) (transfer_of column) 4 8 ≡ some u)
    × (resource_transfer true guest (image ∷ []) (upload_bytes u column (9 ∷ []))
        ≡ returned m (9 ∷ []))
    × (flatten m parts ≡ with_lines (flatten guest parts) picture 4 8 4 2)
unfolding transfer_of res_find get_format_bpp
box_from_host_synced_example =
    box_from_host_synced guest (image ∷ []) image parts picture column (9 ∷ []) refl refl refl refl
      ((inr (omega arith), tt), (tt, tt)) refl (omega arith) (omega arith) (omega arith)
      (omega arith) (omega arith)
