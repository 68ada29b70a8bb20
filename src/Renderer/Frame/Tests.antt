-- ===== src/Renderer/Frame/Tests.antt =====
-- The reading of a forwarded command at a concrete input.
use remote_virtio_gpu.Prelude.{◌≡◌, refl, [], ◌∷◌, ◌++◌, arith}
use remote_virtio_gpu.Virtio.{get_display_info}
use remote_virtio_gpu.Device.Requests.{Incoming, forward}
use remote_virtio_gpu.Renderer.Frame.{frame, read_frame}
use remote_virtio_gpu.Renderer.Frame.Forwarded.{for_first, read_frame-forward}

-- A command of six bytes in two buffers.
abbrev six_bytes : Incoming
six_bytes = record {
  req = 1;
  size = 6;
  chunks = (1 ∷ 2 ∷ []) ∷ (3 ∷ 4 ∷ 5 ∷ 6 ∷ []) ∷ [];
  cmd = record { flags = 0; fence_id = 0; ctx_id = 0; body = get_display_info };
}

read_frame-forward_example :
    read_frame 100 (for_first (forward six_bytes 0 0) ++ (7 ∷ []))
    ≡ frame
        (record { size = 6; idx = 0; flags = 0; bpp = 0; stride = 0 })
        (1 ∷ 2 ∷ 3 ∷ 4 ∷ 5 ∷ 6 ∷ [])
        (7 ∷ [])
read_frame-forward_example =
    read_frame-forward 100 six_bytes 0 0 (7 ∷ []) refl (omega arith) (omega arith) (omega arith)
      (omega arith)
