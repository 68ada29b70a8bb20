-- ===== src/Vqueue/Tests.antt =====
-- Runs of the virtqueues, and their theorems at concrete inputs.
use mathlib.Core.Option.{none-ne-some}
use remote_virtio_gpu.Prelude.{
  ℕ, zero, suc, ◌+◌, ◌%◌, ◌≤◌, ◌≡◌, ◌≢◌, refl, sym, List, [], ◌∷◌, Option, none, some, true, arith,
  length,
}
use remote_virtio_gpu.Memory.{Memory}
use remote_virtio_gpu.Vqueue.{
  Desc, Vqueue, Request, request_iovec_len, vqueue_init_request, vqueue_get_request, drain_queue,
}
use remote_virtio_gpu.Vqueue.Chain.{
  last, link, buffers, buffer, get_request-Chain, get_request_ends,
}
use remote_virtio_gpu.Vqueue.Drain.{Drained, Counted, drain_queue_lem}
use remote_virtio_gpu.Vqueue.Endless.{get_request_endless}

-- Every address can be mapped, or none.
abbrev place : ℕ → ℕ → Option ℕ
place addr len = some (65536 + addr)

abbrev nowhere : ℕ → ℕ → Option ℕ
nowhere addr len = none

place_maps : (addr len : ℕ) → place addr len ≢ none
place_maps addr len e = none-ne-some (65536 + addr) (sym e)

-- A command at descriptor 0 and its answer at descriptor 1.
abbrev table : ℕ → Desc
table zero = record { addr = 4096; len = 40; flags = 1; next = 1 }
table (suc n) = record { addr = 8192; len = 24; flags = 2; next = 0 }

abbrev queue : Vqueue
queue = record {
  num = 2;
  desc = table;
  avail_ring = λ i. 0;
  avail_idx = 0;
  used_ring = record { id = 0; len = 0 } ∷ record { id = 0; len = 0 } ∷ [];
  used_idx = 65535;
  last_avail_idx = 65535;
}

abbrev answer : List ℕ
answer = 1 ∷ 2 ∷ 3 ∷ []

abbrev ram : Memory
ram a = a % 256

get_request-Chain_example :
    vqueue_get_request place 2 queue
    ≡ some (
      record vqueue_init_request {
        idx = 0;
        r = record { iov_base = 69632; iov_len = 40 } ∷ [];
        w = record { iov_base = 73728; iov_len = 24 } ∷ [];
        mapped = true;
      },
      record queue { last_avail_idx = 0 },
    )
unfolding buffers buffer
get_request-Chain_example =
    get_request-Chain place queue 2 (table 0 ∷ table 1 ∷ []) (link refl (last refl)) (omega arith)
      (omega arith) (omega arith)

get_request_ends_example :
    (req : Request) × (vqueue_get_request place 2047 queue
      ≡ some (req, record queue { last_avail_idx = 0 }))
    × (req.idx ≡ 0)
    × (length req.r ≤ request_iovec_len)
    × (length req.w ≤ request_iovec_len)
get_request_ends_example = get_request_ends place queue place_maps

drain_queue_lem_example :
    (m : Memory) × (q' : Vqueue) × (n : ℕ) × (drain_queue place 2047 2 ram queue answer
      ≡ some (m, q', n))
    × Drained place answer ram queue m q' n
    × Counted queue q' n
drain_queue_lem_example =
    drain_queue_lem place 2 ram queue answer place_maps (omega arith)
      (record { avail = omega arith; taken = omega arith; used = omega arith }) (omega arith)

abbrev taken : Request
taken = record vqueue_init_request {
  r = record { iov_base = 69632; iov_len = 40 } ∷ [];
  w = record { iov_base = 73728; iov_len = 24 } ∷ [];
  mapped = true;
}

-- A queue whose descriptors are all one circle.
abbrev circle : Vqueue
circle = record queue { desc = λ i. record { addr = 0; len = 16; flags = 1; next = i } }

get_request_endless_example : vqueue_get_request nowhere 1000000 circle ≡ none
get_request_endless_example = get_request_endless nowhere circle 1000000 (λ i. (refl, refl))
