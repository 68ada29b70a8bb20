-- ===== src/Pipes/Tests.antt =====
-- Runs of the sending, and its theorems at concrete inputs.
use remote_virtio_gpu.Prelude.{◌≡◌, refl, List, [], ◌∷◌, true, map, arith}
use remote_virtio_gpu.Utils.{Answer, moved, failed, again, returned}
use remote_virtio_gpu.Pipes.{
  ScanoutPipes, all_sent, write_error, write_rest, wrote, rvgpu_ctx_send, received, read_rest,
  rvgpu_recv_all,
}
use remote_virtio_gpu.Pipes.Sending.{OnReturn, Sendings, ctx_send-Sendings, ctx_send_delivers}

abbrev idle : ScanoutPipes
idle = record { activated = true; snd = []; rcv = 4 ∷ 5 ∷ 6 ∷ [] }

-- The second scanout's write fails after one byte.
abbrev failing : List Answer
failing = moved 5 ∷ moved 0 ∷ failed ∷ []

partly :
    rvgpu_ctx_send failing (idle ∷ idle ∷ idle ∷ []) (1 ∷ 2 ∷ [])
    ≡ returned (write_error, wrote idle (1 ∷ 2 ∷ []) ∷ wrote idle (1 ∷ []) ∷ idle ∷ [])
unfolding rvgpu_ctx_send write_rest
partly = refl

two_received :
    rvgpu_recv_all (moved 0 ∷ again ∷ moved 3 ∷ []) idle 2
    ≡ returned (received (4 ∷ 5 ∷ []), record idle { rcv = 6 ∷ [] })
unfolding rvgpu_recv_all read_rest
two_received = refl

ctx_send-Sendings_example :
    OnReturn
      (λ r. Sendings (1 ∷ 2 ∷ []) r.0 (idle ∷ idle ∷ []) r.1)
      (rvgpu_ctx_send failing (idle ∷ idle ∷ []) (1 ∷ 2 ∷ []))
ctx_send-Sendings_example = ctx_send-Sendings failing (idle ∷ idle ∷ []) (1 ∷ 2 ∷ [])

ctx_send_delivers_example :
    rvgpu_ctx_send
      (moved 0 ∷ moved 0 ∷ again ∷ moved 9 ∷ moved 9 ∷ [])
      (idle ∷ idle ∷ [])
      (1 ∷ 2 ∷ [])
    ≡ returned (all_sent, map (λ s. wrote s (1 ∷ 2 ∷ [])) (idle ∷ idle ∷ []))
ctx_send_delivers_example =
    ctx_send_delivers (moved 0 ∷ moved 0 ∷ again ∷ moved 9 ∷ moved 9 ∷ []) (idle ∷ idle ∷ [])
      (1 ∷ 2 ∷ []) (refl, (refl, tt)) tt (omega arith)
