-- ===== src/Renderer/Input/Rounds.antt =====
-- What is still to be read, and the rounds of the loop of `rvgpu_pr_read`.
use remote_virtio_gpu.Prelude.{
  ℕ, zero, suc, ◌+◌, ◌-◌, ◌≤◌, ◌<◌, ◌≡◌, sym, ap, ◌∙◌, List, [], ◌∷◌, ◌++◌, true, false, arith,
  length, take, drop, ◌==◌, All, length-append, length-take, length-drop, take-append_le,
  drop-append_le, drop_add, take-nil, drop-nil,
}
use remote_virtio_gpu.Renderer.Input.{Event, Input, avail, chunk, read_loop}

abbrev pub joined : List Event → List ℕ
joined [] = []
joined (e ∷ es) = e.bytes ++ joined es

-- All the bytes that are still to be read.
abbrev pub flat : Input → List ℕ
flat p = drop p.bufpos p.buffer ++ joined p.events

-- Each `read` gives a byte, and no error comes with it.
abbrev pub Steady : List Event → Type 0
Steady es = All (λ e. (0 < length e.bytes) × (e.hangup ≡ false)) es

-- The position is in the buffer.
pub record Ready (p : Input) : Type 0 where
  pub inside : p.bufpos ≤ length p.buffer
  pub steady : Steady p.events

-- The bytes and the input that a reading of `n` bytes leaves.
pub record Read (n : ℕ) (before : List ℕ) (out : List ℕ) (bytes : List ℕ) (p : Input) : Type 0 where
  pub got : bytes ≡ out ++ take n before
  pub left : flat p ≡ drop n before
  pub ready : Ready p

-- The buffer has enough, or it is used up.
pub chunk_all :
    (buffer : List ℕ) (bufpos wanted : ℕ)
    → bufpos ≤ length buffer
    → wanted ≤ length buffer - bufpos
    → avail buffer bufpos wanted ≡ wanted
chunk_all buffer bufpos wanted h k = ground arith

pub chunk_part :
    (buffer : List ℕ) (bufpos wanted : ℕ)
    → length buffer - bufpos ≤ wanted
    → avail buffer bufpos wanted ≡ length buffer - bufpos
chunk_part buffer bufpos wanted k = ground arith

pub take_whole : (n : ℕ) (xs : List ℕ) → length xs ≤ n → take n xs ≡ xs
take_whole n [] h = take-nil n
take_whole zero (x ∷ xs) h = absurd (omega arith)
take_whole (suc n) (x ∷ xs) h = ap (◌∷◌ x) (take_whole n xs (omega arith))

pub drop_whole : (n : ℕ) (xs : List ℕ) → length xs ≤ n → drop n xs ≡ []
drop_whole n [] h = drop-nil n
drop_whole zero (x ∷ xs) h = absurd (omega arith)
drop_whole (suc n) (x ∷ xs) h = drop_whole n xs (omega arith)

pub chunk_length :
    (buffer : List ℕ) (bufpos wanted : ℕ)
    → bufpos ≤ length buffer
    → length (chunk buffer bufpos wanted) ≡ avail buffer bufpos wanted
chunk_length buffer bufpos wanted h = ground (
  arith,
  length-take (avail buffer bufpos wanted) (drop bufpos buffer),
  length-drop bufpos buffer,
)

-- Enough in the buffer.
module _ (es : List Event) (buffer : List ℕ) (bufpos n : ℕ) (inside : bufpos ≤ length buffer)
    (enough : n ≤ length buffer - bufpos) (steady : Steady es) where
  pub Read-buffer :
      (out : List ℕ)
      → Read n
          (drop bufpos buffer ++ joined es)
          out
          (out ++ chunk buffer bufpos n)
          (record { buffer = buffer; bufpos = bufpos + avail buffer bufpos n; events = es })
  Read-buffer out =
      let size = length-drop bufpos buffer in
      let all = chunk_all buffer bufpos n inside enough in
      record {
        got =
            ap (λ m. out ++ take m (drop bufpos buffer)) all
            ∙ ap (◌++◌ out)
                (sym (take-append_le n (drop bufpos buffer) (joined es) (omega (arith, size))));
        left =
            ap (λ m. drop (bufpos + m) buffer ++ joined es) all
            ∙ ap (λ l. l ++ joined es) (sym (drop_add bufpos n buffer))
            ∙ sym (drop-append_le n (drop bufpos buffer) (joined es) (omega (arith, size)));
        ready = record { inside = omega (arith, all); steady = steady };
      }

-- The rounds of the loop.
module _ (e : Event) (es : List Event) (buffer : List ℕ) (bufpos total : ℕ) (out : List ℕ) where
  pub read_loop-enough :
      total ≡ length out + avail buffer bufpos (total - length out)
      → bufpos ≤ length buffer
      → read_loop (e ∷ es) buffer bufpos total out ≡ (
        out ++ chunk buffer bufpos (total - length out),
        record {
          buffer = buffer;
          bufpos = bufpos + avail buffer bufpos (total - length out);
          events = e ∷ es;
        },
      )
  unfolding read_loop
  read_loop-enough h k =
      let n = total - length out in
      let whole : (length (out ++ chunk buffer bufpos n) == total) ≡ true =
        ground (arith, chunk_length buffer bufpos n k, length-append out (chunk buffer bufpos n)) in
      rw (whole, read_loop)

  pub read_loop-more :
      length out + avail buffer bufpos (total - length out) < total
      → bufpos ≤ length buffer
      → 0 < length e.bytes
      → e.hangup ≡ false
      → read_loop (e ∷ es) buffer bufpos total out
        ≡ read_loop es e.bytes 0 total (out ++ chunk buffer bufpos (total - length out))
  unfolding read_loop
  read_loop-more h k nonempty open_yet =
      let n = total - length out in
      let part : (length (out ++ chunk buffer bufpos n) == total) ≡ false =
        ground (arith, chunk_length buffer bufpos n k, length-append out (chunk buffer bufpos n)) in
      let some_bytes : (length e.bytes == 0) ≡ false = ground arith in
      rw (part, some_bytes, open_yet, read_loop)
