-- ===== src/Vqueue/Life.antt =====
-- The references of a request: who holds it, and that it is freed once, after it was answered.
use remote_virtio_gpu.Prelude.{ℕ, ◌≡◌, refl, List, some, arith, add32, sub32}
use remote_virtio_gpu.Memory.{Memory}
use remote_virtio_gpu.Vqueue.{
  Vqueue, Request, lives, freed, vqueue_request_ref, vqueue_request_unref, vqueue_send_response,
}

-- A request that waits for its fence: it got a second reference and gave one up; then its answer
-- unmaps it and frees it, and no `assert` fails.
pub deferred_freed :
    (mem : Memory) (req : Request) (q : Vqueue) (resp : List ℕ) (n : ℕ)
    → req.refcount ≡ 1
    → (waiting : Request) × (vqueue_request_unref (vqueue_request_ref req) ≡ some (lives waiting))
      × (waiting ≡ req)
      × ((vqueue_send_response mem waiting q resp n).2 ≡ some freed)
unfolding vqueue_request_unref vqueue_send_response
deferred_freed mem req q resp n e = (
  record req { refcount = sub32 (add32 req.refcount 1) 1 },
  rw e refl,
  ground (arith, e),
  rw e refl,
)
