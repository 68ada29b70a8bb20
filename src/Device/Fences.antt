-- ===== src/Device/Fences.antt =====
-- rvgpu-gpu-device.c: the answers that wait for a fence, and the fences that the scanouts report.
pub mod Exact
pub mod Threads
pub mod Least
pub mod Kept
pub mod Early
mod Tests
use remote_virtio_gpu.Prelude.{
  ℕ, zero, suc, ◌+◌, List, [], ◌∷◌, ◌++◌, Option, none, some, Bool, true, false, ◌||◌, ltb, has_bit,
  if◌then◌else◌, set, get_or,
}
use remote_virtio_gpu.Virtio.{ok_nodata}
use remote_virtio_gpu.Device.{RespHdr, Waiting, Device}

-- The bit of VIRTIO_GPU_FLAG_VSYNC, and that of VIRTIO_GPU_FLAG_FENCE.
abbrev pub flag_vsync : ℕ
flag_vsync = 2

abbrev pub flag_fence : ℕ
flag_fence = 0

unfoldable pub add_resp : Device → RespHdr → ℕ → Device
add_resp g hdr req = record g {
  async_cmds = g.async_cmds ++ (record { hdr = hdr; req = req } ∷ []);
}

-- What a walk over the waiting answers does: those sent, those that still wait, and the count.
pub record Walk : Type 0 where
  pub sent : List Waiting
  pub left : List Waiting
  pub processed : ℕ

-- The walk goes on behind an entry that was removed: the freed entry's link is read.
pub fences_loop : ℕ → List Waiting → ℕ → Walk
fences_loop fence_id [] n = record { sent = []; left = []; processed = n }
fences_loop fence_id (w ∷ ws) n =
    elim (ltb fence_id w.hdr.fence_id || has_bit w.hdr.flags flag_vsync) [
      | true ↦ let walk = fences_loop fence_id ws n in record walk { left = w ∷ walk.left }
      | false ↦ let walk = fences_loop fence_id ws (suc n) in record walk { sent = w ∷ walk.sent }
    ]

-- The answers that are sent, how many there are, and the device.
pub process_fences : Device → ℕ → List Waiting × ℕ × Device
process_fences g fence_id =
    let walk = fences_loop fence_id g.async_cmds 0 in
    (walk.sent, walk.processed, record g { async_cmds = walk.left })

pub vsync_loop : List Waiting → ℕ → Walk
vsync_loop [] n = record { sent = []; left = []; processed = n }
vsync_loop (w ∷ ws) n = elim (has_bit w.hdr.flags flag_vsync) [
  | true ↦ let walk = vsync_loop ws (suc n) in record walk { sent = w ∷ walk.sent }
  | false ↦ let walk = vsync_loop ws n in record walk { left = w ∷ walk.left }
]

pub gpu_device_serve_vsync : Device → List Waiting × ℕ × Device
gpu_device_serve_vsync g =
    let walk = vsync_loop g.async_cmds 0 in
    (walk.sent, walk.processed, record g { async_cmds = walk.left })

-- `gpu_device_serve_fences`, for the fences that stand in the pipe.
pub gpu_device_serve_fences : List ℕ → Device → ℕ → List Waiting × ℕ × Device
gpu_device_serve_fences [] g processed = ([], processed, g)
gpu_device_serve_fences (f ∷ fs) g processed =
    let (sent, n, g') = process_fences g f in
    let (sent', n', g'') = gpu_device_serve_fences fs g' (processed + n) in (sent ++ sent', n', g'')

-- The answers of the first loop of `gpu_device_drain_once` and `gpu_device_flush_pending`.
unfoldable pub flush_answers : List Waiting → List Waiting
flush_answers [] = []
flush_answers (w ∷ ws) = record w { hdr = record w.hdr { type = ok_nodata } } ∷ flush_answers ws

-- `recv_fence_ids` and `recv_fence_flags` of `resource_thread_func`, by scanout.
pub record Reached : Type 0 where
  pub ids : List ℕ
  pub flags : List Bool

-- The loop over the scanouts from `j` on: the least fence, and who reported it.
pub least_loop : ℕ → List ℕ → ℕ → ℕ → ℕ × ℕ
least_loop j [] sync_fence_id recv_scanout_id = (sync_fence_id, recv_scanout_id)
least_loop j (x ∷ xs) sync_fence_id recv_scanout_id =
    if ltb x sync_fence_id
    then least_loop (suc j) xs x j
    else least_loop (suc j) xs sync_fence_id recv_scanout_id

-- A message RVGPU_FENCE of scanout `i`: the fence that is written to the pipe, if there is one.
pub recv_fence : ℕ → ℕ → Reached → Option ℕ × Reached
recv_fence i fence_id r =
    let flags = set r.flags i true in
    let ids = set r.ids i fence_id in
    let (sync_fence_id, recv_scanout_id) = least_loop 0 ids fence_id i in
    let written = if get_or flags recv_scanout_id false then some sync_fence_id else none in
    (written, record { ids = ids; flags = flags })
