-- ===== src/Vqueue.antt =====
-- rvgpu-vqueue.c: taking a request from a virtqueue, and answering it. `map_guest` is a parameter:
-- the address at which guest memory is mapped, or `none` for NULL.
pub mod Chain
pub mod Rounds
pub mod Drain
pub mod Life
pub mod Endless
mod Tests
use remote_virtio_gpu.Prelude.{
  ℕ, zero, suc, ◌+◌, ◌%◌, List, [], ◌∷◌, ◌++◌, Option, none, some, Bool, true, false, length, leb,
  ltb, ◌!=◌, has_bit, if◌then◌else◌, set, u16_mod, u32_mod, sub32, add32, ◌==◌, not,
}
use remote_virtio_gpu.Memory.{Memory, Iovec}
use remote_virtio_gpu.Iov.{copy_to_iov}

-- `VQUEUE_REQUEST_IOVEC_LEN`
abbrev pub request_iovec_len : ℕ
request_iovec_len = 1024

-- The bits of VRING_DESC_F_NEXT and VRING_DESC_F_WRITE.
abbrev pub desc_next : ℕ
desc_next = 0

abbrev pub desc_write : ℕ
desc_write = 1

-- `struct vring_desc`
pub record Desc : Type 0 where
  pub addr : ℕ
  pub len : ℕ
  pub flags : ℕ
  pub next : ℕ

-- `struct vring_used_elem`
pub record UsedElem : Type 0 where
  pub id : ℕ
  pub len : ℕ

-- `struct vqueue`, with what its rings in the guest's memory hold.
pub record Vqueue : Type 0 where
  pub num : ℕ
  pub desc : ℕ → Desc
  pub avail_ring : ℕ → ℕ
  pub avail_idx : ℕ
  pub used_ring : List UsedElem
  pub used_idx : ℕ
  pub last_avail_idx : ℕ

-- `struct vqueue_request`: `nr` and `nw` are the lengths of `r` and `w`.
pub record Request : Type 0 where
  pub idx : ℕ
  pub r : List Iovec
  pub w : List Iovec
  pub mapped : Bool
  pub refcount : ℕ

abbrev pub vqueue_are_requests_available : Vqueue → Bool
vqueue_are_requests_available q = q.last_avail_idx != q.avail_idx

abbrev pub vqueue_init_request : Request
vqueue_init_request = record { idx = 0; r = []; w = []; mapped = false; refcount = 1 }

-- What a round of the loop makes of a descriptor: the lists, and whether the loop is left.
pub map_desc :
    (ℕ → ℕ → Option ℕ) → Desc → List Iovec → List Iovec → (List Iovec × List Iovec) × Bool
map_desc map_guest d r w = elim (map_guest d.addr d.len) [
  | none ↦ ((r, w), false)
  | some base ↦
      let v : Iovec = record { iov_base = base; iov_len = d.len } in
      if has_bit d.flags desc_write
      then ((r, w ++ (v ∷ [])), leb request_iovec_len (suc (length w)))
      else ((r ++ (v ∷ []), w), leb request_iovec_len (suc (length r)))
]

-- The loop over the chain from the descriptor `didx` on; `none` if the fuel does not suffice.
pub get_loop :
    (ℕ → ℕ → Option ℕ) → Vqueue → ℕ → ℕ → List Iovec → List Iovec → Option (List Iovec × List Iovec)
get_loop map_guest q zero didx r w = none
get_loop map_guest q (suc fuel) didx r w =
    let d = q.desc (didx % q.num) in
    let (lists, full) = map_desc map_guest d r w in
    let rest = get_loop map_guest q fuel d.next lists.0 lists.1 in
    elim full [ true ↦ some lists | false ↦ if has_bit d.flags desc_next then rest else some lists ]

-- The head of the request that is next.
abbrev pub next_head : Vqueue → ℕ
next_head q = q.avail_ring (q.last_avail_idx % q.num)

-- The request and the queue; `none` if the loop does not end on the fuel. `calloc` finds memory.
unfoldable pub vqueue_get_request : (ℕ → ℕ → Option ℕ) → ℕ → Vqueue → Option (Request × Vqueue)
unfolding get_loop map_desc
vqueue_get_request map_guest fuel q = elim (get_loop map_guest q fuel (next_head q) [] []) [
  | none ↦ none
  | some (r, w) ↦ some (
    record vqueue_init_request { idx = next_head q; r = r; w = w; mapped = true },
    record q { last_avail_idx = (q.last_avail_idx + 1) % u16_mod },
  )
]

abbrev pub vqueue_request_ref : Request → Request
vqueue_request_ref req = record req { refcount = add32 req.refcount 1 }

-- What became of a request: it lives on, or it was freed.
pub data Fate : Type 0 where
  lives : Request → Fate
  freed : Fate

-- `none` is the failed `assert` that a request is freed while it is mapped.
unfoldable pub vqueue_request_unref : Request → Option Fate
vqueue_request_unref req =
    let left = sub32 req.refcount 1 in
    if ltb 0 left
    then some (lives (record req { refcount = left }))
    else (if req.mapped then none else some freed)

-- The memory, the queue with its used ring, and what became of the request.
unfoldable pub vqueue_send_response :
    Memory → Request → Vqueue → List ℕ → ℕ → Memory × Vqueue × Option Fate
vqueue_send_response mem req q resp resp_len =
    let (copied, mem') = copy_to_iov mem req.w resp resp_len in
    let el : UsedElem = record { id = req.idx; len = copied % u32_mod } in
    (
      mem',
      record q {
        used_ring = set q.used_ring (q.used_idx % q.num) el;
        used_idx = (q.used_idx + 1) % u16_mod;
      },
      vqueue_request_unref (record req { mapped = false }),
    )

-- The loop of `gpu_device_drain_once` over one queue, on fuel for the loop and for the chains: each
-- request is answered with `resp`. The answer counts the requests.
unfoldable pub drain_queue :
    (ℕ → ℕ → Option ℕ) → ℕ → ℕ → Memory → Vqueue → List ℕ → Option (Memory × Vqueue × ℕ)
drain_queue map_guest chain zero mem q resp = none
drain_queue map_guest chain (suc fuel) mem q resp = elim (vqueue_are_requests_available q) [
  | false ↦ some (mem, q, 0)
  | true ↦ elim (vqueue_get_request map_guest chain q) [
    | none ↦ none
    | some (req, q') ↦
        let (mem', q'', fate) = vqueue_send_response mem req q' resp (length resp) in
        elim (drain_queue map_guest chain fuel mem' q'' resp) [
          | none ↦ none
          | some (m, p, n) ↦ some (m, p, suc n)
        ]
  ]
]
