-- ===== src/Device/FromHost/Lines.antt =====
-- What `copy_line` does to the guest's memory.
use native.Mathlib.Decide.{dec_lt}
use mathlib.Core.Path.{subst}
use remote_virtio_gpu.Prelude.{
  ℕ, ◌+◌, ◌-◌, ◌≤◌, ◌<◌, ◌≡◌, refl, sym, ap, ◌∙◌, inl, inr, List, [], ◌∷◌, some, true, false, arith,
  length, take, drop, ltb, ◌==◌, if◌then◌else◌, length-take, length-drop, take_add, append-nil,
  add64, sub64, u64_mod,
}
use remote_virtio_gpu.Memory.{Memory, Iovec, store, total}
use remote_virtio_gpu.Iov.Scatter.{Separate}
use remote_virtio_gpu.Device.FromHost.Box.{Line, copy_line}
use remote_virtio_gpu.Device.FromHost.Front.{Front, here, there, Located}
use remote_virtio_gpu.Device.FromHost.Update.{Updated, Updated-use, Updated-nothing}

-- The rounds of the loop.
module _ (mem : Memory) (v : Iovec) (vs : List Iovec) (base pos n : ℕ) (bytes : List ℕ)
    (below : base ≤ pos) (inside : pos ≤ base + v.iov_len) (small : base + v.iov_len < u64_mod)
    (enough : n ≤ length bytes) (more : 0 < n) where
  offset : sub64 pos base ≡ pos - base
  offset = omega arith

  room : sub64 v.iov_len (sub64 pos base) ≡ v.iov_len - (pos - base)
  room = omega arith

  some_left : (n == 0) ≡ false
  some_left = ground arith

  chunk :
      (l : ℕ)
      → (if ltb n (v.iov_len - (pos - base)) then n else v.iov_len - (pos - base)) ≡ l
      → (let r = sub64 v.iov_len (sub64 pos base) in if ltb n r then n else r) ≡ l
  chunk l e = ap (λ r. if ltb n r then n else r) room ∙ e

  -- The line ends in the buffer.
  copy_line-part :
      n < v.iov_len - (pos - base)
      → copy_line mem (v ∷ vs) base pos n bytes
        ≡ some (record {
          memory = store mem (v.iov_base + (pos - base)) (take n bytes);
          left = v ∷ vs;
          base = base;
          missing = n - n;
        })
  unfolding copy_line
  copy_line-part h =
      let part = chunk n (ground arith) in
      let read : ltb (length bytes) n ≡ false = ground arith in
      let stays : (add64 (sub64 pos base) n == v.iov_len) ≡ false = rw offset (ground arith) in
      rw (some_left, part, read, part, stays, part, copy_line)
        (ap
          (λ o. some (record {
            memory = store mem (v.iov_base + o) (take n bytes);
            left = v ∷ vs;
            base = base;
            missing = n - n;
          }))
          offset)

  -- The buffer ends in the line, or with it.
  copy_line-end :
      (l : ℕ)
      → l ≡ v.iov_len - (pos - base)
      → l ≤ n
      → copy_line mem (v ∷ vs) base pos n bytes
        ≡ copy_line
            (store mem (v.iov_base + (pos - base)) (take l bytes))
            vs
            (base + v.iov_len)
            (pos + l)
            (n - l)
            (drop l bytes)
  unfolding copy_line
  copy_line-end l e h =
      let part = chunk l (ground arith) in
      let read : ltb (length bytes) l ≡ false = ground arith in
      let goes_on : (add64 (sub64 pos base) l == v.iov_len) ≡ true = rw offset (ground arith) in
      rw (some_left, part, read, part, goes_on, part, copy_line)
        (ap
            (λ o.
              copy_line (store mem (v.iov_base + o) (take l bytes)) vs (add64 base v.iov_len)
                (add64 pos l) (n - l) (drop l bytes))
            offset
          ∙ ap
              (λ b.
                copy_line (store mem (v.iov_base + (pos - base)) (take l bytes)) vs b (add64 pos l)
                  (n - l) (drop l bytes))
              (omega arith)
          ∙ ap
              (λ p.
                copy_line (store mem (v.iov_base + (pos - base)) (take l bytes)) vs
                  (base + v.iov_len) p (n - l) (drop l bytes))
              (omega arith))

-- A line is copied, and the loop's variables are ready for the next.
pub record Copied (mem : Memory) (vs : List Iovec) (base pos n : ℕ) (bytes : List ℕ) (l : Line)
    : Type 0 where
  pub whole : l.missing ≡ 0
  pub front : Front vs base l.left l.base
  pub behind : l.base ≤ pos + n
  pub updated : Updated mem vs (pos - base) (take n bytes) l.memory

-- Behind a buffer that the line fills to its end.
Copied-end :
    (mem : Memory) (v : Iovec) (vs : List Iovec) (base pos n l : ℕ) (bytes : List ℕ) (r : Line)
    → Separate (v ∷ vs)
    → base ≤ pos
    → pos + l ≡ base + v.iov_len
    → l ≤ n
    → n ≤ length bytes
    → Copied
        (store mem (v.iov_base + (pos - base)) (take l bytes))
        vs
        (base + v.iov_len)
        (pos + l)
        (n - l)
        (drop l bytes)
        r
    → Copied mem (v ∷ vs) base pos n bytes r
Copied-end mem v vs base pos n l bytes r (a, s) h e k m c = record {
  whole = c.whole;
  front = there c.front;
  behind = omega (arith, c.behind);
  updated =
      let size = length-take l bytes in
      let sum : l + (n - l) ≡ n = omega arith in
      let start : pos + l - (base + v.iov_len) ≡ 0 = omega arith in
      subst (λ i. Updated mem (v ∷ vs) (pos - base) (take i bytes) r.memory) sum
        (subst (λ bs. Updated mem (v ∷ vs) (pos - base) bs r.memory)
          (sym (take_add l (n - l) bytes))
          (Updated-use mem v vs (pos - base) (take l bytes) (take (n - l) (drop l bytes)) r.memory a
            (omega (arith, size)) (inr (omega (arith, size)))
            (subst
              (λ i.
                Updated (store mem (v.iov_base + (pos - base)) (take l bytes)) vs i
                  (take (n - l) (drop l bytes)) r.memory)
              start c.updated)));
}

-- `copy_line` reads nothing behind the line's bytes, finds room for all of them, and changes nothing
-- else of what the array lists.
pub copy_line-Copied :
    (vs : List Iovec) (mem : Memory) (base pos n : ℕ) (bytes : List ℕ)
    → Separate vs
    → base + total vs < u64_mod
    → base ≤ pos
    → Located pos vs base
    → pos + n ≤ base + total vs
    → n ≤ length bytes
    → (l : Line) × (copy_line mem vs base pos n bytes ≡ some l) × Copied mem vs base pos n bytes l
unfolding copy_line
copy_line-Copied [] mem base pos n bytes s small h near k m =
    let zero_len : n ≡ 0 = omega arith in
    (
      record { memory = mem; left = []; base = base; missing = n },
      refl,
      record {
        whole = zero_len;
        front = here;
        behind = omega arith;
        updated = rw zero_len (Updated-nothing mem [] (pos - base));
      },
    )
copy_line-Copied (v ∷ vs) mem base pos n bytes (a, s) small h near k m = elim (dec_lt 0 n) [
  | no none_left ↦
      let zero_len : n ≡ 0 = omega arith in
      (
        record { memory = mem; left = v ∷ vs; base = base; missing = 0 },
        rw (zero_len, copy_line) refl,
        record {
          whole = refl;
          front = here;
          behind = omega arith;
          updated = rw zero_len (Updated-nothing mem (v ∷ vs) (pos - base));
        },
      )
  | yes more ↦ elim (dec_lt n (v.iov_len - (pos - base))) [
    | yes part ↦ (
      _,
      copy_line-part mem v vs base pos n bytes h near (omega arith) m more part,
      record {
        whole = omega arith;
        front = here;
        behind = omega arith;
        updated =
            let size = length-take n bytes in
            let m' = store mem (v.iov_base + (pos - base)) (take n bytes) in
            subst (λ bs. Updated mem (v ∷ vs) (pos - base) bs m') (append-nil (take n bytes))
              (Updated-use mem v vs (pos - base) (take n bytes) [] m' a (omega (arith, size))
                (inl refl) (Updated-nothing m' vs 0));
      },
    )
    | no end ↦
        let l = v.iov_len - (pos - base) in
        let (r, e, c) =
          copy_line-Copied vs (store mem (v.iov_base + (pos - base)) (take l bytes))
            (base + v.iov_len) (pos + l) (n - l) (drop l bytes) s (omega arith) (omega arith)
            (at_start vs) (omega arith) (omega (arith, length-drop l bytes)) in
        (
          r,
          copy_line-end mem v vs base pos n bytes h near (omega arith) m more l refl (omega arith)
              ∙ e,
          Copied-end mem v vs base pos n l bytes r (a, s) h (omega arith) (omega arith) m c,
        )
  ]
]
  where
    at_start : (ws : List Iovec) → Located (pos + (v.iov_len - (pos - base))) ws (base + v.iov_len)
    at_start [] = tt
    at_start (w ∷ ws) = omega arith
