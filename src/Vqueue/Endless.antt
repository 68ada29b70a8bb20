-- ===== src/Vqueue/Endless.antt =====
-- A chain that `vqueue_get_request` does not get to the end of.
use remote_virtio_gpu.Prelude.{
  ℕ, zero, suc, ◌%◌, ◌≡◌, refl, ap, ◌∙◌, List, Option, none, true, has_bit, [],
}
use remote_virtio_gpu.Memory.{Iovec}
use remote_virtio_gpu.Vqueue.{desc_next, Vqueue, get_loop, next_head, vqueue_get_request}
use remote_virtio_gpu.Vqueue.Rounds.{map_desc-none, get_loop-next}

-- Each index stands for a descriptor that links on and cannot be mapped.
abbrev pub Hopeless : (ℕ → ℕ → Option ℕ) → Vqueue → Type 0
Hopeless map_guest q =
    (i : ℕ)
    → (map_guest (q.desc i).addr (q.desc i).len ≡ none)
      × (has_bit (q.desc i).flags desc_next ≡ true)

get_loop_endless :
    (map_guest : ℕ → ℕ → Option ℕ) (q : Vqueue) (fuel i : ℕ) (r w : List Iovec)
    → Hopeless map_guest q
    → get_loop map_guest q fuel i r w ≡ none
get_loop_endless map_guest q zero i r w h = unfold get_loop in refl
get_loop_endless map_guest q (suc fuel) i r w h =
    let d = q.desc (i % q.num) in
    let e = map_desc-none map_guest d r w (h (i % q.num)).0 in
    get_loop-next map_guest q fuel i r w (ap (λ p. p.1) e) (h (i % q.num)).1
    ∙ ap (λ p. get_loop map_guest q fuel d.next p.0.0 p.0.1) e
    ∙ get_loop_endless map_guest q fuel d.next r w h

-- If no descriptor can be mapped and each links on to another, `vqueue_get_request` does not end, on
-- any fuel: only a buffer that is mapped counts against the size of the arrays.
pub get_request_endless :
    (map_guest : ℕ → ℕ → Option ℕ) (q : Vqueue) (fuel : ℕ)
    → Hopeless map_guest q
    → vqueue_get_request map_guest fuel q ≡ none
unfolding vqueue_get_request
get_request_endless map_guest q fuel h =
    rw (get_loop_endless map_guest q fuel (next_head q) [] [] h, vqueue_get_request) refl
