-- ===== src/Device/FromHost/Synced.antt =====
-- A transfer from the host: the guest's memory gets what the renderer's copy holds.
use remote_virtio_gpu.Prelude.{
  ℕ, ◌+◌, ◌-◌, ◌%◌, ◌≤◌, ◌<◌, ◌≡◌, refl, ap, ◌∙◌, List, ◌++◌, some, arith, length, take, drop, ltb,
  if◌then◌else◌, overwrite, length-append, length-take, length-drop, u32_mod, sub64, pair_eq,
  take-append, drop-append,
}
use remote_virtio_gpu.Memory.{Memory, Iovec, flatten, total}
use remote_virtio_gpu.Iov.Scatter.{Separate}
use remote_virtio_gpu.Virtio.{Transfer3d}
use remote_virtio_gpu.Renderer.Upload.{Upload, upload_resource, upload_patch, box_length}
use remote_virtio_gpu.Device.FromHost.{resource_update}
use remote_virtio_gpu.Device.FromHost.Update.{resource_update-Updated}

-- The patch of an upload lies in the memory.
patch_inside :
    (n : ℕ) (t : Transfer3d) (bpp stride : ℕ)
    → n < u32_mod
    → t.offset ≤ n
    → ((upload_patch n t bpp stride).offset ≡ t.offset)
      × (t.offset + (upload_patch n t bpp stride).len ≤ n)
patch_inside n t bpp stride h k =
    let left : sub64 n (t.offset % u32_mod) % u32_mod ≡ n - t.offset = omega arith in
    (omega arith, least (box_length t bpp stride) (sub64 n (t.offset % u32_mod) % u32_mod) left)
  where
    least : (b l : ℕ) → l ≡ n - t.offset → t.offset + (if ltb b l then b else l) ≤ n
    least b l e = ground arith

-- What the renderer uploads of a resource, the proxy writes at the same place into the guest's
-- memory: behind the transfer the attached memory holds the renderer's bytes from the transfer's
-- offset on, as far as the patch goes, and its own bytes elsewhere; the pipe is left at the next
-- message, and no read is short. It is assumed that the buffers of the guest do not overlap, that
-- both sides attached the same number of bytes, less than 2 ^ 32, and that the offset lies in them.
pub transfer_from_host_synced :
    (mem : Memory) (backing : List Iovec) (memory : List ℕ) (t : Transfer3d) (bpp stride : ℕ)
    (rest : List ℕ)
    → Separate backing
    → length memory ≡ total backing
    → length memory < u32_mod
    → t.offset ≤ length memory
    → (u : Upload) × (m : Memory) × (upload_resource (some memory) t bpp stride ≡ some u)
      × (resource_update mem backing u.patch.offset u.patch.len (u.bytes ++ rest) ≡ some (m, rest))
      × (flatten m backing
          ≡ overwrite (flatten mem backing) t.offset (take u.patch.len (drop t.offset memory)))
unfolding upload_resource
transfer_from_host_synced mem backing memory t bpp stride rest s same h k =
    let p = upload_patch (length memory) t bpp stride in
    let (place, inside) = patch_inside (length memory) t bpp stride h k in
    let bytes = take p.len (drop p.offset memory) in
    let size : p.len ≡ length bytes =
      omega (arith, length-take p.len (drop p.offset memory), length-drop p.offset memory) in
    let (m, e, u) =
      resource_update-Updated backing mem p.offset p.len (bytes ++ rest) s (λ _. omega arith)
        (omega (arith, length-append bytes rest)) in
    (
      record {
        header = record { size = 72; idx = 0; flags = 0; bpp = bpp; stride = stride };
        transfer = t;
        patch = p;
        bytes = bytes;
      },
      m,
      refl,
      e ∙ ap some (pair_eq refl (drop-append p.len bytes rest size)),
      u.written
          ∙ ap (overwrite (flatten mem backing) p.offset) (take-append p.len bytes rest size)
          ∙ ap (λ o. overwrite (flatten mem backing) o (take p.len (drop o memory))) place,
    )
