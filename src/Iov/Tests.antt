-- ===== src/Iov/Tests.antt =====
-- Runs of the copies, and their theorems at concrete inputs.
use Prim.Native.Nat.{min}
use remote_virtio_gpu.Prelude.{
  ℕ, ◌%◌, ◌≡◌, refl, List, [], ◌∷◌, arith, take, overlay, overwrite, inr,
}
use remote_virtio_gpu.Memory.{Memory, Iovec, load, flatten, total}
use remote_virtio_gpu.Iov.{copy_from_iov, copy_to_iov}
use remote_virtio_gpu.Iov.Copy.{copy_from_iov_lem}
use remote_virtio_gpu.Iov.Scatter.{copy_to_iov_lem}
use remote_virtio_gpu.Iov.Reference.{scatter, copy_to_iov-scatter}

abbrev ram : Memory
ram a = a % 256

abbrev two : List Iovec
two = record { iov_base = 16; iov_len = 2 } ∷ record { iov_base = 64; iov_len = 3 } ∷ []

-- The second buffer begins inside the first.
abbrev overlapping : List Iovec
overlapping = record { iov_base = 16; iov_len = 3 } ∷ record { iov_base = 18; iov_len = 3 } ∷ []

abbrev zeros : List ℕ
zeros = 0 ∷ 0 ∷ 0 ∷ 0 ∷ []

copied : copy_from_iov ram two zeros 4 ≡ (4, 16 ∷ 17 ∷ 64 ∷ 65 ∷ [])
unfolding copy_from_iov load
copied = refl

copy_from_iov_lem_example :
    copy_from_iov ram two zeros 4
    ≡ (min 4 (total two), overwrite zeros 0 (take 4 (flatten ram two)))
copy_from_iov_lem_example = copy_from_iov_lem ram two zeros 4 (omega arith)

copy_to_iov_lem_example :
    ((copy_to_iov ram two zeros 4).0 ≡ min 4 (total two))
    × (flatten (copy_to_iov ram two zeros 4).1 two ≡ overlay (flatten ram two) (take 4 zeros))
copy_to_iov_lem_example =
    copy_to_iov_lem ram two zeros 4 (omega arith) (omega arith) ((inr (omega arith), tt), (tt, tt))

copy_to_iov-scatter_example :
    copy_to_iov ram overlapping zeros 4 ≡ (min 4 (total overlapping), scatter ram overlapping zeros)
copy_to_iov-scatter_example = copy_to_iov-scatter ram overlapping zeros (omega arith)
