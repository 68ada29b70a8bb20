-- ===== src/Renderer/Input/Tests.antt =====
-- Runs of the reading, and its theorem at concrete inputs.
use remote_virtio_gpu.Prelude.{◌≡◌, refl, [], ◌∷◌, true, false, arith}
use remote_virtio_gpu.Renderer.Input.{Input, rvgpu_pr_read, read_loop}
use remote_virtio_gpu.Renderer.Input.Flat.{ReadsFlat, rvgpu_pr_read-flat}

-- Two bytes in the buffer, and four from the socket in two reads.
abbrev input : Input
input = record {
  buffer = 1 ∷ 2 ∷ 3 ∷ [];
  bufpos = 1;
  events =
      record { bytes = 4 ∷ []; hangup = false }
      ∷ record { bytes = 5 ∷ 6 ∷ 7 ∷ []; hangup = false }
      ∷ [];
}

across : (rvgpu_pr_read 2 2 input).0 ≡ 2 ∷ 3 ∷ 4 ∷ 5 ∷ []
unfolding rvgpu_pr_read read_loop
across = refl

-- The bytes that come with a hang-up stay in the buffer: the reading stops before them.
abbrev hung_up : Input
hung_up = record input { events = record { bytes = 4 ∷ 5 ∷ []; hangup = true } ∷ [] }

cut_off : (rvgpu_pr_read 4 1 hung_up).0 ≡ 2 ∷ 3 ∷ []
unfolding rvgpu_pr_read read_loop
cut_off = refl

rvgpu_pr_read-flat_example : ReadsFlat 2 2 input (rvgpu_pr_read 2 2 input)
rvgpu_pr_read-flat_example =
    rvgpu_pr_read-flat 2 2 input
      (record { inside = omega arith; steady = ((omega arith, refl), ((omega arith, refl), tt)) })
