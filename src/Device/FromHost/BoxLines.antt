-- ===== src/Device/FromHost/BoxLines.antt =====
-- What the loop over the lines of a box does to the guest's memory.
use native.Mathlib.Nat.{suc-mul}
use remote_virtio_gpu.Prelude.{
  ℕ, zero, suc, ◌+◌, ◌-◌, ◌*◌, ◌≤◌, ◌<◌, ◌≡◌, refl, sym, ap, ◌∙◌, List, [], ◌∷◌, some, false, arith,
  length, take, drop, ltb, length-take, length-drop, drop_add, add64, mul64, u64_mod, overwrite,
}
use remote_virtio_gpu.Memory.{Memory, Iovec, flatten, total}
use remote_virtio_gpu.Iov.Scatter.{Separate}
use remote_virtio_gpu.Device.FromHost.Box.{Line, copied, copy_line, find_line, copy_lines}
use remote_virtio_gpu.Device.FromHost.Front.{
  Front, here, Front-trans, Front-total, Front-Separate, Front-Updated, find_line-Located,
}
use remote_virtio_gpu.Device.FromHost.Lines.{copy_line-Copied}

-- The first list with `n` lines of `width` bytes taken from the same places of the second.
abbrev pub with_lines : List ℕ → List ℕ → (pos stride width n : ℕ) → List ℕ
with_lines xs ys pos stride width zero = xs
with_lines xs ys pos stride width (suc n) =
    with_lines (overwrite xs pos (take width (drop pos ys))) ys (pos + stride) stride width n

take-take : (w p : ℕ) (ys : List ℕ) → w ≤ p → take w (take p ys) ≡ take w ys
take-take zero p ys h = refl
take-take (suc w) zero ys h = absurd (omega arith)
take-take (suc w) (suc p) [] h = refl
take-take (suc w) (suc p) (y ∷ ys) h = ap (◌∷◌ y) (take-take w p ys (omega arith))

-- A line of a part of a list is a line of the list.
take-drop-take :
    (k w p : ℕ) (ys : List ℕ) → k + w ≤ p → take w (drop k (take p ys)) ≡ take w (drop k ys)
take-drop-take zero w p ys h = take-take w p ys (omega arith)
take-drop-take (suc k) w zero ys h = absurd (omega arith)
take-drop-take (suc k) w (suc p) [] h = refl
take-drop-take (suc k) w (suc p) (y ∷ ys) h = take-drop-take k w p ys (omega arith)

-- One round of the loop.
copy_lines_round :
    (n line start pos : ℕ) (mem : Memory) (vs : List Iovec) (base offset stride width : ℕ)
    (bytes : List ℕ) (l : Line)
    → mul64 line stride ≡ start
    → add64 offset start ≡ pos
    → copy_line mem (find_line pos vs base).0 (find_line pos vs base).1 pos width (drop start bytes)
      ≡ some l
    → l.missing ≡ 0
    → copy_lines (suc n) line mem vs base offset stride width bytes
      ≡ copy_lines n (suc line) l.memory l.left l.base offset stride width bytes
unfolding copy_lines
copy_lines_round n line start pos mem vs base offset stride width bytes l e e' found whole =
    let done : ltb 0 l.missing ≡ false = rw whole refl in rw (e, e', found, done, copy_lines)

module _ (backing : List Iovec) (offset stride width p : ℕ) (ys : List ℕ)
    (separate : Separate backing) (small : total backing < u64_mod) (full : p ≤ length ys - offset)
    (room : offset + p ≤ total backing) where
  abbrev pub bytes : List ℕ
  bytes = take p (drop offset ys)

  -- A line, at `k` behind the first one, is copied.
  record OneLine (k : ℕ) (mem : Memory) (vs : List Iovec) (base : ℕ) (l : Line) : Type 0 where
    found :
        copy_line mem
          (find_line (offset + k) vs base).0
          (find_line (offset + k) vs base).1
          (offset + k)
          width
          (drop k bytes)
        ≡ some l
    whole : l.missing ≡ 0
    front : Front backing 0 l.left l.base
    behind : l.base ≤ offset + k + width
    written :
        flatten l.memory backing
        ≡ overwrite (flatten mem backing) (offset + k) (take width (drop (offset + k) ys))

  copy_line-OneLine :
      (k : ℕ) (mem : Memory) (vs : List Iovec) (base : ℕ)
      → Front backing 0 vs base
      → k + width ≤ p
      → base ≤ offset + k
      → (l : Line) × OneLine k mem vs base l
  copy_line-OneLine k mem vs base f reach b =
      let (g, le, near) = find_line-Located vs base (offset + k) b (omega (arith, Front-total f)) in
      let f2 = Front-trans f g in
      let place = find_line (offset + k) vs base in
      let all = Front-total f2 in
      let (l, e, c) =
        copy_line-Copied place.0 mem place.1 (offset + k) width (drop k bytes)
          (Front-Separate f2 separate) (omega (arith, all)) le near (omega (arith, all))
          (omega
            (arith, length-drop k bytes, length-take p (drop offset ys), length-drop offset ys)) in
      (
        l,
        record {
          found = e;
          whole = c.whole;
          front = Front-trans f2 c.front;
          behind = c.behind;
          written =
              (Front-Updated mem l.memory (offset + k) (take width (drop k bytes)) f2 separate le
                c.updated).written
              ∙ ap (λ i. overwrite (flatten mem backing) i (take width (drop k bytes)))
                  (omega arith)
              ∙ ap (overwrite (flatten mem backing) (offset + k)) (
                  take-drop-take k width p (drop offset ys) reach
                  ∙ ap (take width) (drop_add offset k ys));
        },
      )

  -- From the line at `k` behind the first one on.
  copy_lines-loop :
      (n line k : ℕ) (mem : Memory) (vs : List Iovec) (base : ℕ)
      → width ≤ stride
      → Front backing 0 vs base
      → k ≡ line * stride
      → k + n * stride + width ≤ p + stride
      → base ≤ offset + k
      → (m : Memory) × (copy_lines n line mem vs base offset stride width bytes ≡ copied m)
        × (flatten m backing ≡ with_lines (flatten mem backing) ys (offset + k) stride width n)
  copy_lines-loop zero line k mem vs base wide f e h b = (mem, unfold copy_lines in refl, refl)
  copy_lines-loop (suc n) line k mem vs base wide f e h b =
      let more = suc-mul n stride in
      let (l, one) = copy_line-OneLine k mem vs base f (omega (arith, h, more)) b in
      let (m, run, done) =
        copy_lines-loop n (suc line) (k + stride) l.memory l.left l.base wide one.front
          (ap (λ i. i + stride) e ∙ sym (suc-mul line stride)) (omega (arith, h, more))
          (omega (arith, one.behind)) in
      (
        m,
        copy_lines_round n line k (offset + k) mem vs base offset stride width bytes l
              (rw (sym e) (omega (arith, h, more))) (omega (arith, h, more)) one.found one.whole
            ∙ run,
        done
            ∙ ap (λ i. with_lines (flatten l.memory backing) ys i stride width n) (omega arith)
            ∙ ap (λ xs. with_lines xs ys (offset + k + stride) stride width n) one.written,
      )

  -- The whole box.
  pub copy_lines-lem :
      (h : ℕ) (mem : Memory)
      → width ≤ stride
      → h * stride + width ≤ p + stride
      → (m : Memory) × (copy_lines h 0 mem backing 0 offset stride width bytes ≡ copied m)
        × (flatten m backing ≡ with_lines (flatten mem backing) ys offset stride width h)
  copy_lines-lem h mem wide reach =
      let (m, run, done) =
        copy_lines-loop h 0 0 mem backing 0 wide here (omega arith) (omega (arith, reach))
          (omega arith) in
      (m, run, done ∙ ap (λ i. with_lines (flatten mem backing) ys i stride width h) (omega arith))
