-- ===== src/Vqueue/Rounds.antt =====
-- The rounds of the loop of `vqueue_get_request`, the bounds of its arrays, and its end.
use remote_virtio_gpu.Prelude.{
  ℕ, zero, suc, ◌+◌, ◌*◌, ◌%◌, ◌≤◌, ◌<◌, ◌≡◌, ◌≢◌, sym, ◌∙◌, inl, inr, List, [], ◌∷◌, ◌++◌, Option,
  none, some, Bool, true, false, arith, length, leb, has_bit, Bool-cases, Option-cases,
  length-append,
}
use mathlib.Core.Path.{subst}
use mathlib.Core.Option.{some-injective, none-ne-some}
use remote_virtio_gpu.Memory.{Iovec}
use remote_virtio_gpu.Vqueue.{
  request_iovec_len, desc_next, desc_write, Desc, Vqueue, map_desc, get_loop,
}

module _ (map_guest : ℕ → ℕ → Option ℕ) (d : Desc) (r w : List Iovec) where
  pub map_desc-none : map_guest d.addr d.len ≡ none → map_desc map_guest d r w ≡ ((r, w), false)
  unfolding map_desc
  map_desc-none e = rw (e, map_desc)

  pub map_desc-write :
      (base : ℕ)
      → map_guest d.addr d.len ≡ some base
      → has_bit d.flags desc_write ≡ true
      → map_desc map_guest d r w ≡ (
        (r, w ++ (record { iov_base = base; iov_len = d.len } ∷ [])),
        leb request_iovec_len (suc (length w)),
      )
  unfolding map_desc
  map_desc-write base e b = rw (e, b, map_desc)

  pub map_desc-read :
      (base : ℕ)
      → map_guest d.addr d.len ≡ some base
      → has_bit d.flags desc_write ≡ false
      → map_desc map_guest d r w ≡ (
        (r ++ (record { iov_base = base; iov_len = d.len } ∷ []), w),
        leb request_iovec_len (suc (length r)),
      )
  unfolding map_desc
  map_desc-read base e b = rw (e, b, map_desc)

  -- What a round does to the lengths, from lists that have room.
  record Grown (p : (List Iovec × List Iovec) × Bool) : Type 0 where
    pub r_bound : length p.0.0 ≤ request_iovec_len
    pub w_bound : length p.0.1 ≤ request_iovec_len
    pub room : p.1 ≡ false → (length p.0.0 < request_iovec_len) × (length p.0.1 < request_iovec_len)
    pub one_more :
        map_guest d.addr d.len ≢ none → length p.0.0 + length p.0.1 ≡ suc (length r + length w)

  map_desc-Grown :
      length r < request_iovec_len → length w < request_iovec_len → Grown (map_desc map_guest d r w)
  map_desc-Grown h k = elim (Option-cases (map_guest d.addr d.len)) [
    | inl e ↦ subst Grown (sym (map_desc-none e)) (record {
      r_bound = omega arith;
      w_bound = omega arith;
      room = λ _. (h, k);
      one_more = λ m. absurd (m e);
    })
    | inr (base, e) ↦
        let v : Iovec = record { iov_base = base; iov_len = d.len } in
        elim (Bool-cases (has_bit d.flags desc_write)) [
          | inl b ↦ subst Grown (sym (map_desc-write base e b)) (record {
            r_bound = omega arith;
            w_bound = omega (arith, length-append w (v ∷ []));
            room = λ f. (h, ground (arith, length-append w (v ∷ []), f));
            one_more = λ m. omega (arith, length-append w (v ∷ []));
          })
          | inr b ↦ subst Grown (sym (map_desc-read base e b)) (record {
            r_bound = omega (arith, length-append r (v ∷ []));
            w_bound = omega arith;
            room = λ f. (ground (arith, length-append r (v ∷ []), f), k);
            one_more = λ m. omega (arith, length-append r (v ∷ []));
          })
        ]
  ]

module _ (map_guest : ℕ → ℕ → Option ℕ) (q : Vqueue) (fuel didx : ℕ) (r w : List Iovec) where
  abbrev round : (List Iovec × List Iovec) × Bool
  round = map_desc map_guest (q.desc (didx % q.num)) r w

  pub get_loop-full : round.1 ≡ true → get_loop map_guest q (suc fuel) didx r w ≡ some round.0
  unfolding get_loop
  get_loop-full e = rw (e, get_loop)

  pub get_loop-next :
      round.1 ≡ false
      → has_bit (q.desc (didx % q.num)).flags desc_next ≡ true
      → get_loop map_guest q (suc fuel) didx r w
        ≡ get_loop map_guest q fuel (q.desc (didx % q.num)).next round.0.0 round.0.1
  unfolding get_loop
  get_loop-next e f = rw (e, f, get_loop)

  pub get_loop-last :
      round.1 ≡ false
      → has_bit (q.desc (didx % q.num)).flags desc_next ≡ false
      → get_loop map_guest q (suc fuel) didx r w ≡ some round.0
  unfolding get_loop
  get_loop-last e f = rw (e, f, get_loop)

-- The lists stay in the arrays.
abbrev pub InArrays : List Iovec × List Iovec → Type 0
InArrays p = (length p.0 ≤ request_iovec_len) × (length p.1 ≤ request_iovec_len)

module _ (map_guest : ℕ → ℕ → Option ℕ) (q : Vqueue) where
  -- On enough fuel the loop ends, if each descriptor can be mapped.
  pub get_loop-ends :
      (fuel didx : ℕ) (r w : List Iovec)
      → ((addr len : ℕ) → map_guest addr len ≢ none)
      → length r < request_iovec_len
      → length w < request_iovec_len
      → 2 * request_iovec_len ≤ suc fuel + (length r + length w)
      → (p : List Iovec × List Iovec) × (get_loop map_guest q fuel didx r w ≡ some p) × InArrays p
  get_loop-ends zero didx r w maps h k m = absurd (omega arith)
  get_loop-ends (suc fuel) didx r w maps h k m =
      let d = q.desc (didx % q.num) in
      let p = map_desc map_guest d r w in
      let g = map_desc-Grown map_guest d r w h k in
      let more = g.one_more (maps d.addr d.len) in
      elim (Bool-cases p.1) [
        | inl full ↦ (p.0, get_loop-full map_guest q fuel didx r w full, (g.r_bound, g.w_bound))
        | inr free ↦ elim (Bool-cases (has_bit d.flags desc_next)) [
          | inr stop ↦
              (p.0, get_loop-last map_guest q fuel didx r w free stop, (g.r_bound, g.w_bound))
          | inl go ↦
              let (r', w') = g.room free in
              let (out, e, bound) =
                get_loop-ends fuel d.next p.0.0 p.0.1 maps r' w' (omega (arith, more)) in
              (out, get_loop-next map_guest q fuel didx r w free go ∙ e, bound)
        ]
      ]

  -- Mapped or not, the loop never leaves the arrays.
  pub get_loop-InArrays :
      (fuel didx : ℕ) (r w : List Iovec) (p : List Iovec × List Iovec)
      → length r < request_iovec_len
      → length w < request_iovec_len
      → get_loop map_guest q fuel didx r w ≡ some p
      → InArrays p
  get_loop-InArrays zero didx r w p h k e = absurd (none-ne-some p (unfold get_loop in e))
  get_loop-InArrays (suc fuel) didx r w p h k e =
      let d = q.desc (didx % q.num) in
      let o = map_desc map_guest d r w in
      let g = map_desc-Grown map_guest d r w h k in
      elim (Bool-cases o.1) [
        | inl full ↦
            subst InArrays
              (some-injective _ _ (sym (get_loop-full map_guest q fuel didx r w full) ∙ e))
              (g.r_bound, g.w_bound)
        | inr free ↦ elim (Bool-cases (has_bit d.flags desc_next)) [
          | inr stop ↦
              subst InArrays
                (some-injective _ _ (sym (get_loop-last map_guest q fuel didx r w free stop) ∙ e))
                (g.r_bound, g.w_bound)
          | inl go ↦
              let (r', w') = g.room free in
              get_loop-InArrays fuel d.next o.0.0 o.0.1 p r' w'
                (sym (get_loop-next map_guest q fuel didx r w free go) ∙ e)
        ]
      ]
