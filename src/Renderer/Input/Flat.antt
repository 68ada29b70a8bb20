-- ===== src/Renderer/Input/Flat.antt =====
-- The buffered reading is reading from one list of bytes, however the socket cuts it up.
use mathlib.Core.Path.{subst}
use native.Mathlib.Decide.{dec_lt}
use remote_virtio_gpu.Prelude.{
  ℕ, ◌+◌, ◌-◌, ◌*◌, ◌/◌, ◌≤◌, ◌<◌, ◌≡◌, refl, sym, ap, ◌∙◌, List, [], ◌∷◌, ◌++◌, true, false, arith,
  length, take, drop, ◌==◌, append_assoc, append-nil, length-append, length-drop, take-append_ge,
  drop-append_ge,
}
use remote_virtio_gpu.Renderer.Input.{Event, Input, avail, chunk, read_loop, rvgpu_pr_read}
use remote_virtio_gpu.Renderer.Input.Rounds.{
  joined, flat, Steady, Ready, Read, chunk_all, chunk_part, take_whole, drop_whole, chunk_length,
  Read-buffer, read_loop-enough, read_loop-more,
}

-- Enough in the buffer, in the loop.
read_loop-buffer :
    (es : List Event) (buffer : List ℕ) (bufpos total : ℕ) (out : List ℕ)
    → bufpos ≤ length buffer
    → Steady es
    → length out ≤ total
    → total - length out ≤ length buffer - bufpos
    → (let r = read_loop es buffer bufpos total out in
        Read (total - length out) (drop bufpos buffer ++ joined es) out r.0 r.1)
read_loop-buffer [] buffer bufpos total out inside s h k =
    unfold read_loop in Read-buffer [] buffer bufpos (total - length out) inside k s out
read_loop-buffer (e ∷ es) buffer bufpos total out inside s h k =
    let n = total - length out in
    let all = chunk_all buffer bufpos n inside k in
    subst (λ r. Read n (drop bufpos buffer ++ joined (e ∷ es)) out r.0 r.1)
      (sym (read_loop-enough e es buffer bufpos total out (omega (arith, all)) inside))
      (Read-buffer (e ∷ es) buffer bufpos n inside k s out)

-- A buffer that is used up.
module _ (buffer : List ℕ) (bufpos n : ℕ) (inside : bufpos ≤ length buffer)
    (short : length buffer - bufpos < n) (out : List ℕ) where
  chunk_rest : chunk buffer bufpos n ≡ drop bufpos buffer
  chunk_rest =
      ap (λ m. take m (drop bufpos buffer)) (chunk_part buffer bufpos n (omega arith))
      ∙ take_whole (length buffer - bufpos) (drop bufpos buffer)
          (omega (arith, length-drop bufpos buffer))

  Read-last :
      Read n
        (drop bufpos buffer ++ [])
        out
        (out ++ chunk buffer bufpos n)
        (record { buffer = buffer; bufpos = bufpos + avail buffer bufpos n; events = [] })
  Read-last =
      let part = chunk_part buffer bufpos n (omega arith) in
      let size = length-drop bufpos buffer in
      record {
        got =
            ap (◌++◌ out) chunk_rest
            ∙ ap (◌++◌ out) (
                sym (
                  ap (take n) (append-nil (drop bufpos buffer))
                  ∙ take_whole n (drop bufpos buffer) (omega (arith, size))));
        left =
            append-nil (drop (bufpos + avail buffer bufpos n) buffer)
            ∙ drop_whole (bufpos + avail buffer bufpos n) buffer (omega (arith, part))
            ∙ sym (
                ap (drop n) (append-nil (drop bufpos buffer))
                ∙ drop_whole n (drop bufpos buffer) (omega (arith, size)));
        ready = record { inside = omega (arith, part); steady = tt };
      }

  Read-behind :
      (rest : List ℕ) (m : ℕ) (bytes : List ℕ) (p : Input)
      → m ≡ n - (length buffer - bufpos)
      → Read m rest (out ++ chunk buffer bufpos n) bytes p
      → Read n (drop bufpos buffer ++ rest) out bytes p
  Read-behind rest m bytes p e r =
      let size = length-drop bufpos buffer in
      let m' : m ≡ n - length (drop bufpos buffer) = omega (arith, size) in
      record {
        got =
            r.got
            ∙ ap (λ l. (out ++ l) ++ take m rest) chunk_rest
            ∙ append_assoc out (drop bufpos buffer) (take m rest)
            ∙ ap (λ k. out ++ (drop bufpos buffer ++ take k rest)) m'
            ∙ ap (◌++◌ out)
                (sym (take-append_ge n (drop bufpos buffer) rest (omega (arith, size))));
        left =
            r.left
            ∙ ap (λ k. drop k rest) m'
            ∙ sym (drop-append_ge n (drop bufpos buffer) rest (omega (arith, size)));
        ready = r.ready;
      }

read_loop-Read :
    (es : List Event) (buffer : List ℕ) (bufpos total : ℕ) (out : List ℕ)
    → bufpos ≤ length buffer
    → Steady es
    → length out ≤ total
    → (let r = read_loop es buffer bufpos total out in
        Read (total - length out) (drop bufpos buffer ++ joined es) out r.0 r.1)
read_loop-Read [] buffer bufpos total out inside s h =
    elim (dec_lt (length buffer - bufpos) (total - length out)) [
      | no enough ↦ read_loop-buffer [] buffer bufpos total out inside s h (omega arith)
      | yes short ↦
          unfold read_loop in Read-last buffer bufpos (total - length out) inside short out
    ]
read_loop-Read (e ∷ es) buffer bufpos total out inside (k, s) h =
    elim (dec_lt (length buffer - bufpos) (total - length out)) [
      | no enough ↦ read_loop-buffer (e ∷ es) buffer bufpos total out inside (k, s) h (omega arith)
      | yes short ↦
          let n = total - length out in
          let part = chunk_part buffer bufpos n (omega arith) in
          let out' = out ++ chunk buffer bufpos n in
          let size : length out' ≡ length out + (length buffer - bufpos) = omega (
            arith,
            part,
            chunk_length buffer bufpos n inside,
            length-append out (chunk buffer bufpos n),
          ) in
          subst (λ r. Read n (drop bufpos buffer ++ joined (e ∷ es)) out r.0 r.1)
            (sym (read_loop-more e es buffer bufpos total out (omega (arith, part)) inside k.0 k.1))
            (Read-behind buffer bufpos n inside short out (e.bytes ++ joined es)
              (total - length out') (read_loop es e.bytes 0 total out').0
              (read_loop es e.bytes 0 total out').1 (omega (arith, size))
              (read_loop-Read es e.bytes 0 total out' (omega arith) s (omega (arith, size))))
    ]

-- A result of reading, and what stands in the flat list.
abbrev pub ReadsFlat : ℕ → ℕ → Input → List ℕ × ℕ × Input → Type 0
ReadsFlat size nmemb p (bytes, count, p') =
    (bytes ≡ take (size * nmemb) (flat p))
    × (count ≡ length bytes / size)
    × (flat p' ≡ drop (size * nmemb) (flat p))
    × Ready p'

rvgpu_pr_read-nothing :
    (size nmemb : ℕ) (p : Input) → size * nmemb ≡ 0 → rvgpu_pr_read size nmemb p ≡ ([], 0, p)
unfolding rvgpu_pr_read
rvgpu_pr_read-nothing size nmemb p e =
    let zero_bytes : (size * nmemb == 0) ≡ true = rw e refl in rw (zero_bytes, rvgpu_pr_read)

rvgpu_pr_read-some :
    (size nmemb : ℕ) (p : Input)
    → 0 < size * nmemb
    → (let r = read_loop p.events p.buffer p.bufpos (size * nmemb) [] in
        rvgpu_pr_read size nmemb p ≡ (r.0, length r.0 / size, r.1))
unfolding rvgpu_pr_read
rvgpu_pr_read-some size nmemb p h =
    let total = size * nmemb in
    let positive : (total == 0) ≡ false = ground arith in rw (positive, rvgpu_pr_read)

-- Reading from the buffer and the socket is reading from the list of all their bytes: it gives the
-- bytes that were asked for, or all if the connection ends before, counts whole members, and leaves
-- the bytes behind them, wherever the socket cuts the bytes up. It is assumed that each `read` gives
-- a byte, and that no hang-up is reported together with bytes.
pub rvgpu_pr_read-flat :
    (size nmemb : ℕ) (p : Input) → Ready p → ReadsFlat size nmemb p (rvgpu_pr_read size nmemb p)
rvgpu_pr_read-flat size nmemb p ready = elim (dec_lt 0 (size * nmemb)) [
  | no none_asked ↦
      let zero_bytes : size * nmemb ≡ 0 = omega arith in
      subst (ReadsFlat size nmemb p) (sym (rvgpu_pr_read-nothing size nmemb p zero_bytes))
        (rw zero_bytes (refl, sym (no_members size), refl, ready))
  | yes some_asked ↦
      let total = size * nmemb in
      let read =
        read_loop-Read p.events p.buffer p.bufpos total [] ready.inside ready.steady
          (omega arith) in
      subst (ReadsFlat size nmemb p) (sym (rvgpu_pr_read-some size nmemb p some_asked)) (
        read.got ∙ ap (λ n. take n (flat p)) (all_left total),
        refl,
        read.left ∙ ap (λ n. drop n (flat p)) (all_left total),
        read.ready,
      )
]
  where
    no_members : (n : ℕ) → 0 / n ≡ 0
    no_members n = omega arith

    all_left : (n : ℕ) → n - 0 ≡ n
    all_left n = omega arith
