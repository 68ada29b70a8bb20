-- ===== src/Vqueue/Drain.antt =====
-- Draining a queue: which answers are put for which requests.
use Prim.Native.Nat.{min}
use mathlib.Core.Path.{subst}
use remote_virtio_gpu.Prelude.{
  ℕ, zero, suc, ◌+◌, ◌-◌, ◌%◌, ◌<◌, ◌≡◌, ◌≢◌, refl, ap, ◌∙◌, inl, inr, List, Option, none, some,
  true, false, arith, length, set, Bool-cases, u16_mod, u32_mod, u64_mod,
}
use remote_virtio_gpu.Memory.{Memory, Iovec, total}
use remote_virtio_gpu.Iov.{copy_to_iov}
use remote_virtio_gpu.Iov.Reference.{scatter, copy_to_iov-scatter}
use remote_virtio_gpu.Vqueue.{
  Vqueue, Request, vqueue_are_requests_available, vqueue_get_request, vqueue_send_response,
  drain_queue, next_head,
}
use remote_virtio_gpu.Vqueue.Chain.{get_request_ends}

-- How many requests are available and not taken.
abbrev pub pending : Vqueue → ℕ
pending q = (q.avail_idx + u16_mod - q.last_avail_idx) % u16_mod

-- The indices are `uint16_t`.
pub record Indices (q : Vqueue) : Type 0 where
  pub avail : q.avail_idx < u16_mod
  pub taken : q.last_avail_idx < u16_mod
  pub used : q.used_idx < u16_mod

-- An answer is put for the request with the head `id`: the buffers `w` get the bytes of `resp`, dealt
-- out in their order, and the next element of the used ring holds `id` and how many bytes fitted.
pub record Put (mem : Memory) (q : Vqueue) (id : ℕ) (w : List Iovec) (resp : List ℕ) (mem' : Memory)
    (q' : Vqueue) : Type 0 where
  pub written : mem' ≡ scatter mem w resp
  pub ring :
      q'.used_ring
      ≡ set q.used_ring
          (q.used_idx % q.num)
          (record { id = id; len = min (length resp) (total w) % u32_mod })
  pub stepped : q'.used_idx ≡ (q.used_idx + 1) % u16_mod
  pub same_avail : q'.avail_idx ≡ q.avail_idx
  pub same_taken : q'.last_avail_idx ≡ q.last_avail_idx
  pub same_heads : q'.avail_ring ≡ q.avail_ring
  pub same_chains : q'.desc ≡ q.desc
  pub same_size : q'.num ≡ q.num

-- The queue from which the next request was taken.
abbrev pub taken_one : Vqueue → Vqueue
taken_one q = record q { last_avail_idx = (q.last_avail_idx + 1) % u16_mod }

-- Each available request is taken, in the order of the available ring, and answered with `resp` under
-- its own head, until none is left. The number counts them.
pub data Drained (map_guest : ℕ → ℕ → Option ℕ) (resp : List ℕ)
    : Memory → Vqueue → Memory → Vqueue → ℕ → Type 0 where
  all_taken :
      {mem : Memory} {q : Vqueue}
      → q.last_avail_idx ≡ q.avail_idx
      → Drained map_guest resp mem q mem q 0
  answered :
      {mem m m' : Memory} {q p p' : Vqueue} {n : ℕ} (req : Request)
      → q.last_avail_idx ≢ q.avail_idx
      → vqueue_get_request map_guest 2047 q ≡ some (req, taken_one q)
      → Put mem (taken_one q) (next_head q) req.w resp m p
      → Drained map_guest resp m p m' p' n
      → Drained map_guest resp mem q m' p' (suc n)

-- What is left of the counts.
pub record Counted (q q' : Vqueue) (n : ℕ) : Type 0 where
  pub count : n ≡ pending q
  pub nothing_left : q'.last_avail_idx ≡ q.avail_idx
  pub answers : q'.used_idx ≡ (q.used_idx + n) % u16_mod

-- `vqueue_send_response` puts an answer.
pub send_response-Put :
    (mem : Memory) (req : Request) (q : Vqueue) (resp : List ℕ)
    → length resp < u64_mod
    → (let sent = vqueue_send_response mem req q resp (length resp) in
        Put mem q req.idx req.w resp sent.0 sent.1)
unfolding vqueue_send_response
send_response-Put mem req q resp h = record {
  written = ap (λ c. c.1) copied;
  ring =
      ap (λ c. set q.used_ring (q.used_idx % q.num) (record { id = req.idx; len = c.0 % u32_mod }))
        copied;
  stepped = refl;
  same_avail = refl;
  same_taken = refl;
  same_heads = refl;
  same_chains = refl;
  same_size = refl;
}
  where
    copied :
        copy_to_iov mem req.w resp (length resp)
        ≡ (min (length resp) (total req.w), scatter mem req.w resp)
    copied = copy_to_iov-scatter mem req.w resp h

module _ (map_guest : ℕ → ℕ → Option ℕ) (chain fuel : ℕ) (mem : Memory) (q : Vqueue)
    (resp : List ℕ) where
  drain_queue-empty :
      vqueue_are_requests_available q ≡ false
      → drain_queue map_guest chain (suc fuel) mem q resp ≡ some (mem, q, 0)
  unfolding drain_queue
  drain_queue-empty e = rw (e, drain_queue)

  drain_queue-more :
      (req : Request) (q' p : Vqueue) (m : Memory) (n : ℕ)
      → vqueue_are_requests_available q ≡ true
      → vqueue_get_request map_guest chain q ≡ some (req, q')
      → (let answer = vqueue_send_response mem req q' resp (length resp) in
          drain_queue map_guest chain fuel answer.0 answer.1 resp ≡ some (m, p, n))
      → drain_queue map_guest chain (suc fuel) mem q resp ≡ some (m, p, suc n)
  unfolding drain_queue
  drain_queue-more req q' p m n e f g = rw (e, f, g, drain_queue)

after_answer :
    (mem m : Memory) (q p : Vqueue) (id : ℕ) (w : List Iovec) (resp : List ℕ) (q' : Vqueue) (n : ℕ)
    → pending q ≡ suc (pending (taken_one q))
    → Put mem (taken_one q) id w resp m p
    → Counted p q' n
    → Counted q q' (suc n)
after_answer mem m q p id w resp q' n one put c = record {
  count = omega (arith, one, c.count, put.same_avail, put.same_taken);
  nothing_left = c.nothing_left ∙ put.same_avail;
  answers = omega (arith, c.answers, put.stepped);
}

-- Where every buffer can be mapped, draining a queue ends, on fuel for one round more than there are
-- requests, and leaves none. Each request that was available is taken in turn and answered: its own
-- writable buffers hold `resp`, dealt out in their order as far as there is room, and nothing else in
-- the memory changes; the next element of the used ring holds its head and the number of bytes.
pub drain_queue_lem :
    (map_guest : ℕ → ℕ → Option ℕ) (fuel : ℕ) (mem : Memory) (q : Vqueue) (resp : List ℕ)
    → ((addr len : ℕ) → map_guest addr len ≢ none)
    → length resp < u64_mod
    → Indices q
    → pending q < fuel
    → (m : Memory) × (q' : Vqueue) × (n : ℕ) × (drain_queue map_guest 2047 fuel mem q resp
        ≡ some (m, q', n))
      × Drained map_guest resp mem q m q' n
      × Counted q q' n
drain_queue_lem map_guest zero mem q resp maps short i h = absurd (omega arith)
drain_queue_lem map_guest (suc fuel) mem q resp maps short i h =
    elim (Bool-cases (vqueue_are_requests_available q)) [
      | inr empty ↦
          let same : q.last_avail_idx ≡ q.avail_idx = ground arith in
          let bound = i.used in
          let bound' = i.avail in
          (
            mem,
            q,
            0,
            drain_queue-empty map_guest 2047 fuel mem q resp empty,
            all_taken same,
            record { count = omega arith; nothing_left = same; answers = omega arith },
          )
      | inl yes_more ↦
          let (req, got, head, in_r, in_w) = get_request_ends map_guest q maps in
          let q₁ = taken_one q in
          let answer = vqueue_send_response mem req q₁ resp (length resp) in
          let put = send_response-Put mem req q₁ resp short in
          let ne : q.last_avail_idx ≢ q.avail_idx = ground arith in
          let a = i.avail in
          let b = i.taken in
          let one : pending q ≡ suc (pending q₁) = grind arith in
          let left : pending answer.1 ≡ pending q₁ =
            omega (arith, put.same_avail, put.same_taken) in
          let (m, q', n, e, d, c) =
            drain_queue_lem map_guest fuel answer.0 answer.1 resp maps short
              (record {
                avail = omega (arith, put.same_avail);
                taken = omega (arith, put.same_taken);
                used = omega (arith, put.stepped);
              })
              (omega (arith, one, left)) in
          let own = subst (λ x. Put mem q₁ x req.w resp answer.0 answer.1) head put in
          (
            m,
            q',
            suc n,
            drain_queue-more map_guest 2047 fuel mem q resp req q₁ q' m n yes_more got e,
            answered {m' = m} {p' = q'} {n = n} req ne got own d,
            after_answer mem answer.0 q answer.1 (next_head q) req.w resp q' n one own c,
          )
    ]
