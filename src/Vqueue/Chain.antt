-- ===== src/Vqueue/Chain.antt =====
-- Taking a request: the descriptors of its chain, in the order of the chain.
use remote_virtio_gpu.Prelude.{
  ℕ, zero, suc, ◌+◌, ◌%◌, ◌≤◌, ◌<◌, ◌≡◌, ◌≢◌, refl, sym, ap, ◌∙◌, inl, inr, List, [], ◌∷◌, ◌++◌,
  Option, none, some, Bool, true, false, arith, length, leb, has_bit, Bool-cases, Option-cases,
  length-append, append_assoc, append-nil, u16_mod, pair_eq, if◌then◌else◌,
}
use remote_virtio_gpu.Memory.{Iovec}
use remote_virtio_gpu.Vqueue.{
  request_iovec_len, desc_next, desc_write, Desc, Vqueue, Request, map_desc, get_loop, next_head,
  vqueue_init_request, vqueue_get_request,
}
use remote_virtio_gpu.Vqueue.Rounds.{
  map_desc-none, map_desc-write, map_desc-read, get_loop-next, get_loop-last, get_loop-ends,
}

-- The chain of descriptors from an index on.
pub data Chain (q : Vqueue) : ℕ → List Desc → Type 0 where
  last :
      {i : ℕ}
      → has_bit (q.desc (i % q.num)).flags desc_next ≡ false
      → Chain q i (q.desc (i % q.num) ∷ [])
  link :
      {i : ℕ} {ds : List Desc}
      → has_bit (q.desc (i % q.num)).flags desc_next ≡ true
      → Chain q (q.desc (i % q.num)).next ds
      → Chain q i (q.desc (i % q.num) ∷ ds)

-- The buffer of a descriptor, if it can be mapped: among those that the device writes (`to` is
-- true), or among those that it reads.
unfoldable pub buffer : (ℕ → ℕ → Option ℕ) → Bool → Desc → List Iovec
buffer map_guest to d = elim (map_guest d.addr d.len) [
  | none ↦ []
  | some base ↦
      let v : Iovec = record { iov_base = base; iov_len = d.len } in
      elim (has_bit d.flags desc_write) [
        | true ↦ if to then v ∷ [] else []
        | false ↦ if to then [] else v ∷ []
      ]
]

unfoldable pub buffers : (ℕ → ℕ → Option ℕ) → Bool → List Desc → List Iovec
buffers map_guest to [] = []
buffers map_guest to (d ∷ ds) = buffer map_guest to d ++ buffers map_guest to ds

module _ (map_guest : ℕ → ℕ → Option ℕ) (d : Desc) where
  buffer-none : (to : Bool) → map_guest d.addr d.len ≡ none → buffer map_guest to d ≡ []
  unfolding buffer
  buffer-none to e = rw (e, buffer)

  buffer-some :
      (to b : Bool) (base : ℕ)
      → map_guest d.addr d.len ≡ some base
      → has_bit d.flags desc_write ≡ b
      → buffer map_guest to d ≡ elim b [
        | true ↦ if to then record { iov_base = base; iov_len = d.len } ∷ [] else []
        | false ↦ if to then [] else record { iov_base = base; iov_len = d.len } ∷ []
      ]
  unfolding buffer
  buffer-some to b base e f = rw (e, f, buffer)

  -- With room behind it, a round adds the descriptor's buffer, and the loop goes on.
  map_desc-buffer :
      (r w : List Iovec)
      → length (r ++ buffer map_guest false d) < request_iovec_len
      → length (w ++ buffer map_guest true d) < request_iovec_len
      → map_desc map_guest d r w
        ≡ ((r ++ buffer map_guest false d, w ++ buffer map_guest true d), false)
  map_desc-buffer r w h k = elim (Option-cases (map_guest d.addr d.len)) [
    | inl e ↦
        map_desc-none map_guest d r w e
        ∙ rw (buffer-none false e, buffer-none true e, append-nil r, append-nil w) refl
    | inr (base, e) ↦
        let v : Iovec = record { iov_base = base; iov_len = d.len } in
        elim (Bool-cases (has_bit d.flags desc_write)) [
          | inl b ↦
              let here = buffer-some true true base e b in
              let room : length (w ++ (v ∷ [])) < request_iovec_len = rw here at k in
              let more : leb request_iovec_len (suc (length w)) ≡ false =
                ground (arith, length-append w (v ∷ []), room) in
              map_desc-write map_guest d r w base e b
              ∙ rw (here, buffer-some false true base e b, append-nil r, more) refl
          | inr b ↦
              let here = buffer-some false false base e b in
              let room : length (r ++ (v ∷ [])) < request_iovec_len = rw here at h in
              let more : leb request_iovec_len (suc (length r)) ≡ false =
                ground (arith, length-append r (v ∷ []), room) in
              map_desc-read map_guest d r w base e b
              ∙ rw (here, buffer-some true false base e b, append-nil w, more) refl
        ]
  ]

module _ (map_guest : ℕ → ℕ → Option ℕ) (q : Vqueue) where
  shorter : {A : Type 0} (xs ys : List A) (n : ℕ) → length (xs ++ ys) < n → length xs < n
  shorter xs ys n h = omega (arith, length-append xs ys)

  get_loop-Chain :
      (fuel i : ℕ) (r w : List Iovec) (ds : List Desc)
      → Chain q i ds
      → length ds ≤ fuel
      → length (r ++ buffers map_guest false ds) < request_iovec_len
      → length (w ++ buffers map_guest true ds) < request_iovec_len
      → get_loop map_guest q fuel i r w
        ≡ some (r ++ buffers map_guest false ds, w ++ buffers map_guest true ds)
  get_loop-Chain zero i r w _ (last stop) m h k = absurd (omega arith)
  get_loop-Chain zero i r w _ (link go c) m h k = absurd (omega arith)
  get_loop-Chain (suc fuel) i r w _ (last stop) m h k =
      let d = q.desc (i % q.num) in
      let b = buffer map_guest false d in
      let b' = buffer map_guest true d in
      let h' : length (r ++ b) < request_iovec_len = unfold buffers in rw (sym (append-nil b)) h in
      let k' : length (w ++ b') < request_iovec_len =
        unfold buffers in rw (sym (append-nil b')) k in
      let e = map_desc-buffer map_guest d r w h' k' in
      get_loop-last map_guest q fuel i r w (ap (λ p. p.1) e) stop
      ∙ unfold buffers in
        rw (append-nil (buffer map_guest false d), append-nil (buffer map_guest true d))
          (ap (λ p. some p.0) e)
  get_loop-Chain (suc fuel) i r w _ (link {ds} go c) m h k =
      let d = q.desc (i % q.num) in
      let b = buffer map_guest false d in
      let b' = buffer map_guest true d in
      let h' : length ((r ++ b) ++ buffers map_guest false ds) < request_iovec_len =
        unfold buffers in rw (append_assoc r b (buffers map_guest false ds)) h in
      let k' : length ((w ++ b') ++ buffers map_guest true ds) < request_iovec_len =
        unfold buffers in rw (append_assoc w b' (buffers map_guest true ds)) k in
      let e =
        map_desc-buffer map_guest d r w (shorter (r ++ b) _ _ h') (shorter (w ++ b') _ _ k') in
      get_loop-next map_guest q fuel i r w (ap (λ p. p.1) e) go
      ∙ ap (λ p. get_loop map_guest q fuel d.next p.0.0 p.0.1) e
      ∙ get_loop-Chain fuel d.next (r ++ b) (w ++ b') ds c (omega arith) h' k'
      ∙ unfold buffers in
        ap some (
          pair_eq (append_assoc r b (buffers map_guest false ds))
            (append_assoc w b' (buffers map_guest true ds)))

  get_request_lem :
      (fuel : ℕ) (r w : List Iovec)
      → get_loop map_guest q fuel (next_head q) [] [] ≡ some (r, w)
      → vqueue_get_request map_guest fuel q
        ≡ some (
          record vqueue_init_request { idx = next_head q; r = r; w = w; mapped = true },
          record q { last_avail_idx = (q.last_avail_idx + 1) % u16_mod },
        )
  unfolding vqueue_get_request
  get_request_lem fuel r w e = rw (e, vqueue_get_request)

  -- From a chain whose buffers fit in the arrays, `vqueue_get_request` takes the head of the chain as
  -- the request's index, its readable buffers in the order of the chain, and its writable ones,
  -- leaving out those that cannot be mapped, and steps to the next available request.
  pub get_request-Chain :
      (fuel : ℕ) (ds : List Desc)
      → Chain q (next_head q) ds
      → length ds ≤ fuel
      → length (buffers map_guest false ds) < request_iovec_len
      → length (buffers map_guest true ds) < request_iovec_len
      → vqueue_get_request map_guest fuel q
        ≡ some (
          record vqueue_init_request {
            idx = next_head q;
            r = buffers map_guest false ds;
            w = buffers map_guest true ds;
            mapped = true;
          },
          record q { last_avail_idx = (q.last_avail_idx + 1) % u16_mod },
        )
  get_request-Chain fuel ds c m h k =
      get_request_lem fuel (buffers map_guest false ds) (buffers map_guest true ds)
        (get_loop-Chain fuel (next_head q) [] [] ds c m h k)

  -- If every buffer can be mapped, `vqueue_get_request` ends within 2047 rounds, even on a chain that
  -- is a circle, takes the head of the chain as the request's index, and never writes behind the ends
  -- of its two arrays.
  pub get_request_ends :
      ((addr len : ℕ) → map_guest addr len ≢ none)
      → (req : Request) × (vqueue_get_request map_guest 2047 q
          ≡ some (req, record q { last_avail_idx = (q.last_avail_idx + 1) % u16_mod }))
        × (req.idx ≡ next_head q)
        × (length req.r ≤ request_iovec_len)
        × (length req.w ≤ request_iovec_len)
  get_request_ends maps =
      let ((r, w), e, bound) =
        get_loop-ends map_guest q 2047 (next_head q) [] [] maps (omega arith) (omega arith)
          (omega arith) in
      (
        record vqueue_init_request { idx = next_head q; r = r; w = w; mapped = true },
        get_request_lem 2047 r w e,
        refl,
        bound.0,
        bound.1,
      )
