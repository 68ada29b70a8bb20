-- ===== src/Iov/Reference.antt =====
-- `copy_to_iov` and a reference for it, for buffers that may overlap.
use mathlib.Core.Path.{fun_ext}
use Prim.Native.Nat.{min}
use native.Mathlib.Decide.{dec_lt}
use remote_virtio_gpu.Prelude.{
  ℕ, ◌+◌, ◌-◌, ◌≤◌, ◌<◌, ◌≡◌, refl, sym, ap, ◌∙◌, List, [], ◌∷◌, ◌++◌, arith, length, take, drop,
  u64_mod, take-append, drop-append, take_all, drop_all, pair_eq,
}
use remote_virtio_gpu.Memory.{Memory, store, Iovec, total}
use remote_virtio_gpu.Iov.{copy_to_loop, copy_to_iov}
use remote_virtio_gpu.Iov.Scatter.{copy_to_loop_more, copy_to_loop_last, part_split, length-part}

-- The bytes are dealt out to the buffers, in their order.
unfoldable pub scatter : Memory → List Iovec → List ℕ → Memory
scatter mem [] bytes = mem
scatter mem (v ∷ vs) bytes =
    scatter (store mem v.iov_base (take v.iov_len bytes)) vs (drop v.iov_len bytes)

store-nil : (mem : Memory) (a : ℕ) → store mem a [] ≡ mem
unfolding store
store-nil mem a = fun_ext (λ x. ground arith)

take_nil : (n : ℕ) → take {A = ℕ} n [] ≡ []
take_nil n = take_all n [] (omega arith)

drop_nil : (n : ℕ) → drop {A = ℕ} n [] ≡ []
drop_nil n = drop_all n [] (omega arith)

scatter-nil : (mem : Memory) (vs : List Iovec) → scatter mem vs [] ≡ mem
unfolding scatter
scatter-nil mem [] = refl
scatter-nil mem (v ∷ vs) =
    rw (take_nil v.iov_len, drop_nil v.iov_len, store-nil mem v.iov_base) (scatter-nil mem vs)

-- A buffer that is filled, and one that is the last.
scatter-full :
    (mem : Memory) (v : Iovec) (vs : List Iovec) (part later : List ℕ)
    → length part ≡ v.iov_len
    → scatter mem (v ∷ vs) (part ++ later) ≡ scatter (store mem v.iov_base part) vs later
unfolding scatter
scatter-full mem v vs part later e =
    rw (take-append v.iov_len part later (sym e), drop-append v.iov_len part later (sym e)) refl

scatter-last :
    (mem : Memory) (v : Iovec) (vs : List Iovec) (part : List ℕ)
    → length part ≤ v.iov_len
    → scatter mem (v ∷ vs) part ≡ store mem v.iov_base part
unfolding scatter
scatter-last mem v vs part h =
    rw (take_all v.iov_len part h, drop_all v.iov_len part h)
      (scatter-nil (store mem v.iov_base part) vs)

copy_to_loop-scatter :
    (mem : Memory) (vs : List Iovec) (buffer : List ℕ) (len ret : ℕ)
    → ret ≤ len
    → len < u64_mod
    → len ≤ length buffer
    → copy_to_loop mem vs buffer len ret
      ≡ (ret + min (len - ret) (total vs), scatter mem vs (take (len - ret) (drop ret buffer)))
copy_to_loop-scatter mem [] buffer len ret h k m =
    unfold copy_to_loop scatter in pair_eq (omega arith) refl
copy_to_loop-scatter mem (v ∷ vs) buffer len ret h k m = elim (dec_lt v.iov_len (len - ret)) [
  | yes more ↦
      let part = take v.iov_len (drop ret buffer) in
      let left = take (len - (ret + v.iov_len)) (drop (ret + v.iov_len) buffer) in
      let full = length-part buffer ret v.iov_len (omega arith) in
      copy_to_loop_more mem v vs buffer len ret h k more
      ∙ copy_to_loop-scatter (store mem v.iov_base part) vs buffer len (ret + v.iov_len)
          (omega arith) k m
      ∙ pair_eq (omega arith) (
          sym (scatter-full mem v vs part left full)
          ∙ ap (scatter mem (v ∷ vs)) (sym (part_split buffer len ret v.iov_len more)))
  | no last ↦
      let bytes = take (len - ret) (drop ret buffer) in
      let size = length-part buffer ret (len - ret) (omega arith) in
      copy_to_loop_last mem v vs buffer len ret h k (omega arith)
      ∙ pair_eq (omega arith) (sym (scatter-last mem v vs bytes (omega arith)))
]

-- From a whole buffer `copy_to_iov` writes what dealing its bytes out to the buffers in their order
-- writes, also where these overlap, and returns the smaller of its length and the room there is; no
-- sum in `size_t` wraps.
pub copy_to_iov-scatter :
    (mem : Memory) (vs : List Iovec) (buffer : List ℕ)
    → length buffer < u64_mod
    → copy_to_iov mem vs buffer (length buffer)
      ≡ (min (length buffer) (total vs), scatter mem vs buffer)
unfolding copy_to_iov
copy_to_iov-scatter mem vs buffer k =
    copy_to_loop-scatter mem vs buffer (length buffer) 0 (omega arith) k (omega arith)
    ∙ pair_eq (omega arith)
        (ap (scatter mem vs) (take_all (length buffer - 0) buffer (omega arith)))
