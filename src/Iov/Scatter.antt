-- ===== src/Iov/Scatter.antt =====
-- What `copy_to_iov` does to the memory, for buffers that do not overlap.
use Prim.Native.Nat.{min}
use remote_virtio_gpu.Prelude.{
  ℕ, ◌+◌, ◌-◌, ◌≤◌, ◌<◌, ◌≡◌, refl, sym, ap, ◌∙◌, inl, inr, List, [], ◌∷◌, ◌++◌, arith, length,
  true, false, take, drop, overlay, u64_mod, take_add, drop_add, length-append, Bool-cases, ltb,
  sub64, add64, length-take, length-drop, overlay-append, overlay-append_le, overlay_same, pair_eq,
  tests,
}
use native.Mathlib.Decide.{dec_lt}
use remote_virtio_gpu.Memory.{
  Memory, load, store, Iovec, flatten, total, length-load, Apart, load-store-Apart, load-store_self,
}
use remote_virtio_gpu.Iov.{copy_to_loop, copy_to_iov}

-- None of the buffers of the array overlaps a place.
abbrev pub AllApart : ℕ → ℕ → List Iovec → Type 0
AllApart b n [] = Unit {0}
AllApart b n (v ∷ vs) = Apart v.iov_base v.iov_len b n × AllApart b n vs

-- No two buffers of the array overlap.
abbrev pub Separate : List Iovec → Type 0
Separate [] = Unit {0}
Separate (v ∷ vs) = AllApart v.iov_base v.iov_len vs × Separate vs

-- What lies outside the buffers stays.
load-copy_to_loop :
    (mem : Memory) (vs : List Iovec) (buffer : List ℕ) (len ret b n : ℕ)
    → AllApart b n vs
    → load (copy_to_loop mem vs buffer len ret).1 b n ≡ load mem b n
unfolding copy_to_loop
load-copy_to_loop mem [] buffer len ret b n h = refl
load-copy_to_loop mem (v ∷ vs) buffer len ret b n (h, hs) =
    elim (Bool-cases (ltb v.iov_len (sub64 len ret))) [
      | inl more ↦ rw more (
          load-copy_to_loop (store mem v.iov_base (part v.iov_len)) vs buffer len
            (add64 ret v.iov_len) b n hs
          ∙ load-store-Apart mem v.iov_base (part v.iov_len) b n (within v.iov_len (omega arith)))
      | inr last ↦ rw last (
          load-store-Apart mem v.iov_base (part (sub64 len ret)) b n
            (within (sub64 len ret) (ground arith)))
    ]
  where
    part : ℕ → List ℕ
    part k = take k (drop ret buffer)

    within : (k : ℕ) → k ≤ v.iov_len → Apart v.iov_base (length (part k)) b n
    within k e = omega (arith, length-take k (drop ret buffer))

pub flatten-store :
    (mem : Memory) (vs : List Iovec) (a : ℕ) (bytes : List ℕ) (n : ℕ)
    → length bytes ≤ n
    → AllApart a n vs
    → flatten (store mem a bytes) vs ≡ flatten mem vs
flatten-store mem [] a bytes n h k = refl
flatten-store mem (v ∷ vs) a bytes n h (k, ks) =
    ap (λ l. l ++ flatten (store mem a bytes) vs)
      (load-store-Apart mem a bytes v.iov_base v.iov_len (omega arith))
    ∙ ap (◌++◌ (load mem v.iov_base v.iov_len)) (flatten-store mem vs a bytes n h ks)

pub copy_to_loop_more :
    (mem : Memory) (v : Iovec) (vs : List Iovec) (buffer : List ℕ) (len ret : ℕ)
    → ret ≤ len
    → len < u64_mod
    → v.iov_len < len - ret
    → copy_to_loop mem (v ∷ vs) buffer len ret
      ≡ copy_to_loop
          (store mem v.iov_base (take v.iov_len (drop ret buffer)))
          vs
          buffer
          len
          (ret + v.iov_len)
unfolding copy_to_loop
copy_to_loop_more mem v vs buffer len ret h k m =
    let more : ltb v.iov_len (sub64 len ret) ≡ true = omega tests in
    let next : add64 ret v.iov_len ≡ ret + v.iov_len = omega arith in rw (more, next)

pub copy_to_loop_last :
    (mem : Memory) (v : Iovec) (vs : List Iovec) (buffer : List ℕ) (len ret : ℕ)
    → ret ≤ len
    → len < u64_mod
    → len - ret ≤ v.iov_len
    → copy_to_loop mem (v ∷ vs) buffer len ret
      ≡ (len, store mem v.iov_base (take (len - ret) (drop ret buffer)))
unfolding copy_to_loop
copy_to_loop_last mem v vs buffer len ret h k m =
    let last : ltb v.iov_len (sub64 len ret) ≡ false = ground arith in
    let rest : sub64 len ret ≡ len - ret = omega arith in
    rw (last, rest) (pair_eq (omega arith) refl)

-- What is left to do from `ret` on has been done, with this result.
record Scattered (mem : Memory) (vs : List Iovec) (bytes : List ℕ) (ret : ℕ) (r : ℕ × Memory)
    : Type 0 where
  count : r.0 ≡ ret + min (length bytes) (total vs)
  filled : flatten r.1 vs ≡ overlay (flatten mem vs) bytes

-- The bytes left from `ret` on: those that this buffer takes, and those left then.
pub part_split :
    (buffer : List ℕ) (len ret n : ℕ)
    → n < len - ret
    → take (len - ret) (drop ret buffer)
      ≡ take n (drop ret buffer) ++ take (len - (ret + n)) (drop (ret + n) buffer)
part_split buffer len ret n h =
    let e : len - ret ≡ n + (len - (ret + n)) = omega arith in
    rw e (
      take_add n (len - (ret + n)) (drop ret buffer)
      ∙ ap (λ l. take n (drop ret buffer) ++ take (len - (ret + n)) l) (drop_add ret n buffer))

pub length-part :
    (buffer : List ℕ) (ret n : ℕ) → ret + n ≤ length buffer → length (take n (drop ret buffer)) ≡ n
length-part buffer ret n h = omega (arith, length-take n (drop ret buffer), length-drop ret buffer)

module _ (mem : Memory) (v : Iovec) (vs : List Iovec)
    (apart : AllApart v.iov_base v.iov_len vs) where
  open v use {iov_base, iov_len}

  Scattered-more :
      (buffer part later : List ℕ) (len ret : ℕ)
      → length part ≡ iov_len
      → (let m = store mem iov_base part in
          Scattered m vs later (ret + iov_len) (copy_to_loop m vs buffer len (ret + iov_len)))
      → Scattered mem
          (v ∷ vs)
          (part ++ later)
          ret
          (copy_to_loop (store mem iov_base part) vs buffer len (ret + iov_len))
  Scattered-more buffer part later len ret e ih = record {
    count = omega (arith, ih.count, length-append part later, e);
    filled =
        ap (λ l. l ++ flatten r.1 vs)
          (load-copy_to_loop m vs buffer len (ret + iov_len) iov_base iov_len apart
            ∙ load-store_self mem iov_base part iov_len (omega (arith, e))
            ∙ overlay_same (load mem iov_base iov_len) part (omega (arith, e, size)))
        ∙ ap (◌++◌ part) (
            ih.filled
            ∙ ap (λ l. overlay l later)
                (flatten-store mem vs iov_base part iov_len (omega (arith, e)) apart))
        ∙ sym (
            overlay-append (load mem iov_base iov_len) (flatten mem vs) part later
              (omega (arith, e, size)));
  }
    where
      m : Memory
      m = store mem iov_base part

      r : ℕ × Memory
      r = copy_to_loop m vs buffer len (ret + iov_len)

      size : length (load mem iov_base iov_len) ≡ iov_len
      size = length-load mem iov_base iov_len

  Scattered-last :
      (part : List ℕ) (len ret : ℕ)
      → length part ≤ iov_len
      → ret + length part ≡ len
      → Scattered mem (v ∷ vs) part ret (len, store mem iov_base part)
  Scattered-last part len ret e f = record {
    count = omega arith;
    filled =
        ap (λ l. l ++ flatten (store mem iov_base part) vs)
          (load-store_self mem iov_base part iov_len e)
        ∙ ap (◌++◌ (overlay (load mem iov_base iov_len) part))
            (flatten-store mem vs iov_base part iov_len e apart)
        ∙ sym (
            overlay-append_le (load mem iov_base iov_len) (flatten mem vs) part
              (omega (arith, length-load mem iov_base iov_len)));
  }

copy_to_loop-Scattered :
    (mem : Memory) (vs : List Iovec) (buffer : List ℕ) (len ret : ℕ)
    → ret ≤ len
    → len < u64_mod
    → len ≤ length buffer
    → Separate vs
    → Scattered mem vs (take (len - ret) (drop ret buffer)) ret (copy_to_loop mem vs buffer len ret)
copy_to_loop-Scattered mem [] buffer len ret h k m s =
    unfold copy_to_loop in record { count = omega arith; filled = refl }
copy_to_loop-Scattered mem (v ∷ vs) buffer len ret h k m (s, ss) =
    elim (dec_lt v.iov_len (len - ret)) [
      | yes more ↦
          rw
            (
              copy_to_loop_more mem v vs buffer len ret h k more,
              part_split buffer len ret v.iov_len more,
            )
            (Scattered-more mem v vs s buffer (take v.iov_len (drop ret buffer)) _ len ret
              (length-part buffer ret v.iov_len (omega arith))
              (copy_to_loop-Scattered (store mem v.iov_base (take v.iov_len (drop ret buffer))) vs
                buffer len (ret + v.iov_len) (omega arith) k m ss))
      | no last ↦
          let size : length (take (len - ret) (drop ret buffer)) ≡ len - ret =
            length-part buffer ret (len - ret) (omega arith) in
          rw (copy_to_loop_last mem v vs buffer len ret h k (omega arith)) (
            Scattered-last mem v vs s (take (len - ret) (drop ret buffer)) len ret (omega arith)
              (omega arith))
    ]

-- With buffers that do not overlap, `copy_to_iov` returns how many bytes it copied, the smaller of
-- `len` and the room there is, and then the buffers hold the first `len` bytes of the source from
-- their start on, as far as there is room, and behind these what they held before.
pub copy_to_iov_lem :
    (mem : Memory) (vs : List Iovec) (buffer : List ℕ) (len : ℕ)
    → len < u64_mod
    → len ≤ length buffer
    → Separate vs
    → ((copy_to_iov mem vs buffer len).0 ≡ min len (total vs))
      × (flatten (copy_to_iov mem vs buffer len).1 vs ≡ overlay (flatten mem vs) (take len buffer))
unfolding copy_to_iov
copy_to_iov_lem mem vs buffer len k m s = (
  omega (arith, done.count, length-take (len - 0) buffer),
  done.filled ∙ ap (λ n. overlay (flatten mem vs) (take n buffer)) (omega arith),
)
  where
    done : Scattered mem vs (take (len - 0) (drop 0 buffer)) 0 (copy_to_loop mem vs buffer len 0)
    done = copy_to_loop-Scattered mem vs buffer len 0 (omega arith) k m s

-- `copy_to_iov` changes no byte outside the buffers.
pub load-copy_to_iov :
    (mem : Memory) (vs : List Iovec) (buffer : List ℕ) (len b n : ℕ)
    → AllApart b n vs
    → load (copy_to_iov mem vs buffer len).1 b n ≡ load mem b n
unfolding copy_to_iov
load-copy_to_iov mem vs buffer len b n h = load-copy_to_loop mem vs buffer len 0 b n h
