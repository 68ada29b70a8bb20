-- ===== src/Device/Drain.antt =====
-- rvgpu-gpu-device.c: `gpu_device_drain_once`, and the passes of `gpu_device_flush_pending`, which
-- answer everything that the guest waits for before the device goes away.
pub mod All
mod Tests
use remote_virtio_gpu.Prelude.{
  ℕ, zero, suc, ◌+◌, ◌-◌, List, [], ◌∷◌, Option, none, some, Bool, true, false, length, ltb, ◌!=◌,
  ◌==◌,
}
use remote_virtio_gpu.Memory.{Memory}
use remote_virtio_gpu.Virtio.{ok_nodata}
use remote_virtio_gpu.Vqueue.{Request, Vqueue, vqueue_send_response, drain_queue}
use remote_virtio_gpu.Device.{RespHdr, Waiting}
use remote_virtio_gpu.Device.Fences.{flush_answers}

-- The memory of the guest, the answers that wait, and the control and the cursor queue.
pub record Pending : Type 0 where
  pub mem : Memory
  pub async_cmds : List Waiting
  pub ctrl : Vqueue
  pub cursor : Vqueue

-- What surrounds it: `map_guest`, the request that an answer belongs to, and a header's bytes.
pub record Around : Type 0 where
  pub map_guest : ℕ → ℕ → Option ℕ
  pub request : ℕ → Request
  pub bytes_of : RespHdr → List ℕ

-- `resp` of a request that is only drained.
abbrev pub plain : RespHdr
plain = record { type = ok_nodata; flags = 0; fence_id = 0; ctx_id = 0 }

-- The loop over the waiting answers, which were given their type; it counts them.
pub flush_loop : Around → Memory → Vqueue → List Waiting → Memory × Vqueue × ℕ
flush_loop around mem q [] = (mem, q, 0)
flush_loop around mem q (w ∷ ws) =
    let bytes = around.bytes_of w.hdr in
    let sent = vqueue_send_response mem (around.request w.req) q bytes (length bytes) in
    let (m, p, n) = flush_loop around sent.0 sent.1 ws in (m, p, suc n)

-- What is left, `flushed`, `kick_ctrl` and `kick_cursor`; on fuel for the chains and the queues.
unfoldable pub gpu_device_drain_once : Around → ℕ → ℕ → Pending → Option (Pending × ℕ × ℕ × ℕ)
gpu_device_drain_once around chain fuel s =
    let (mem, ctrl, waited) = flush_loop around s.mem s.ctrl (flush_answers s.async_cmds) in
    elim (drain_queue around.map_guest chain fuel mem ctrl (around.bytes_of plain)) [
      | none ↦ none
      | some (mem', ctrl', m) ↦
          elim (drain_queue around.map_guest chain fuel mem' s.cursor (around.bytes_of plain)) [
            | none ↦ none
            | some (mem'', cursor', n) ↦ some (
              record { mem = mem''; async_cmds = []; ctrl = ctrl'; cursor = cursor' },
              waited + m + n,
              waited + m,
              n,
            )
          ]
    ]

-- The passes of `gpu_device_flush_pending`, `left` of them at most; `arrive` is what the guest does
-- between two passes. The answer is what is left, and `total_flushed`.
pub flush_passes : Around → ℕ → ℕ → (Pending → Pending) → ℕ → Pending → ℕ → Option (Pending × ℕ)
flush_passes around chain fuel arrive zero s total = some (s, total)
flush_passes around chain fuel arrive (suc left) s total =
    elim (gpu_device_drain_once around chain fuel s) [
      | none ↦ none
      | some (s', flushed, kick_ctrl, kick_cursor) ↦ elim (flushed == 0) [
        | true ↦ some (s', total)
        | false ↦ flush_passes around chain fuel arrive left (arrive s') (total + flushed)
      ]
    ]
