-- ===== src/Iov/Copy.antt =====
-- What `copy_from_iov`, `copy_to_iov` and `iov_size` do, against the bytes that the array lists.
use Prim.Native.Nat.{min}
use remote_virtio_gpu.Prelude.{
  ℕ, ◌+◌, ◌-◌, ◌≤◌, ◌<◌, ◌≡◌, pair_eq, take-nil, tests, add64, sym, ap, ◌∙◌, inl, inr, List, [],
  ◌∷◌, ◌++◌, arith, length, take, overwrite, u64_mod, take-append_le, take-append_ge,
  overwrite-overwrite, overwrite-nil, Bool-cases, ltb, sub64,
}
use remote_virtio_gpu.Memory.{Memory, load, Iovec, flatten, total, length-load, take-load}
use remote_virtio_gpu.Iov.{copy_from_loop, copy_from_iov, iov_size_loop, iov_size}

copy_from_loop_lem :
    (mem : Memory) (vs : List Iovec) (len ret : ℕ) (buffer : List ℕ)
    → ret ≤ len
    → len < u64_mod
    → copy_from_loop mem vs len ret buffer
      ≡ (ret + min (len - ret) (total vs), overwrite buffer ret (take (len - ret) (flatten mem vs)))
unfolding copy_from_loop
copy_from_loop_lem mem [] len ret buffer h k =
    pair_eq (omega arith)
      (sym (ap (overwrite buffer ret) (take-nil (len - ret)) ∙ overwrite-nil buffer ret))
copy_from_loop_lem mem (v ∷ vs) len ret buffer h k =
    elim (Bool-cases (ltb v.iov_len (sub64 len ret))) [
      | inl more ↦
          let fits : v.iov_len < len - ret = omega tests in
          let next : add64 ret v.iov_len ≡ ret + v.iov_len = omega arith in
          rw (more, next)
            (copy_from_loop_lem mem vs len (ret + v.iov_len) _ (omega arith) k
              ∙ pair_eq (omega arith) (
                  overwrite-overwrite buffer ret (ret + v.iov_len) bytes _ (omega (arith, size))
                  ∙ ap (overwrite buffer ret) (
                      ap (λ n. bytes ++ take n (flatten mem vs)) (omega (arith, size))
                      ∙ sym (
                          take-append_ge (len - ret) bytes (flatten mem vs)
                            (omega (arith, size))))))
      | inr last ↦
          let full : len - ret ≤ v.iov_len = ground arith in
          let rest : sub64 len ret ≡ len - ret = omega arith in
          rw (last, rest)
            (pair_eq (omega arith) (
              ap (overwrite buffer ret) (
                sym (take-load mem v.iov_base v.iov_len (len - ret) full)
                ∙ sym (take-append_le (len - ret) bytes (flatten mem vs) (omega (arith, size))))))
    ]
  where
    bytes : List ℕ
    bytes = load mem v.iov_base v.iov_len

    size : length bytes ≡ v.iov_len
    size = length-load mem v.iov_base v.iov_len

-- `copy_from_iov` fills the buffer from its start with the first bytes that the array lists, as
-- many as there are but at most `len`, leaves the rest of the buffer, and returns their number.
pub copy_from_iov_lem :
    (mem : Memory) (vs : List Iovec) (buffer : List ℕ) (len : ℕ)
    → len < u64_mod
    → copy_from_iov mem vs buffer len
      ≡ (min len (total vs), overwrite buffer 0 (take len (flatten mem vs)))
unfolding copy_from_iov
copy_from_iov_lem mem vs buffer len k =
    copy_from_loop_lem mem vs len 0 buffer (omega arith) k
    ∙ pair_eq (omega arith) (ap (λ n. overwrite buffer 0 (take n (flatten mem vs))) (omega arith))

iov_size_loop_lem :
    (vs : List Iovec) (result : ℕ)
    → result + total vs < u64_mod
    → iov_size_loop vs result ≡ result + total vs
unfolding iov_size_loop
iov_size_loop_lem [] result h = omega arith
iov_size_loop_lem (v ∷ vs) result h =
    let next : add64 result v.iov_len ≡ result + v.iov_len = omega arith in
    rw next (iov_size_loop_lem vs (result + v.iov_len) (omega arith) ∙ omega arith)

-- `iov_size` is the number of bytes that the array lists, if a `size_t` holds it.
pub iov_size_lem : (vs : List Iovec) → total vs < u64_mod → iov_size vs ≡ total vs
unfolding iov_size
iov_size_lem vs h = iov_size_loop_lem vs 0 (omega arith) ∙ omega arith
