-- ===== src/Patch/Rounds.antt =====
-- The steps of `gpu_device_send_data`: the rounds of its loop, and what a patch is made of.
use Prim.Native.Nat.{min}
use native.Mathlib.Decide.{dec_lt}
use remote_virtio_gpu.Prelude.{
  ℕ, suc, ◌+◌, ◌-◌, ◌≤◌, ◌<◌, ◌≡◌, sym, ap, ◌∙◌, List, [], ◌∷◌, ◌++◌, arith, some, true, false,
  length, take, drop, ltb, leb, ◌==◌, u32_mod, append_assoc, append-nil, if◌then◌else◌, add64, ◌%◌,
  tests, u64_mod, drop-append_ge, drop-append_le, take-append_le, take-append_ge,
}
use remote_virtio_gpu.Memory.{
  Memory, Iovec, flatten, total, load, length-load, take-load, drop-load,
}
use remote_virtio_gpu.Wire.{Patch, patch_bytes, patch_res}
use remote_virtio_gpu.Patch.{
  PatchData, niov, write_patch, open_hdr, add_patch, send_loop, gpu_device_send_data,
}

pub total_append : (xs : List Iovec) (v : Iovec) → total (xs ++ (v ∷ [])) ≡ total xs + v.iov_len
total_append [] v = omega arith
total_append (x ∷ xs) v = omega (arith, total_append xs v)

pub flatten_append :
    (mem : Memory) (xs : List Iovec) (v : Iovec)
    → flatten mem (xs ++ (v ∷ [])) ≡ flatten mem xs ++ load mem v.iov_base v.iov_len
flatten_append mem [] v = append-nil _
flatten_append mem (x ∷ xs) v =
    ap (◌++◌ (load mem x.iov_base x.iov_len)) (flatten_append mem xs v)
    ∙ sym (
        append_assoc (load mem x.iov_base x.iov_len) (flatten mem xs)
          (load mem v.iov_base v.iov_len))

pub write_patch-nil : (mem : Memory) (d : PatchData) → d.iov ≡ [] → write_patch mem d ≡ []
unfolding write_patch
write_patch-nil mem d e = let one : (niov d == 1) ≡ true = ground (arith, ap length e) in rw one

pub not_one : (vs : List Iovec) → 0 < total vs → (suc (length vs) == 1) ≡ false
not_one [] h = absurd (omega arith)
not_one (v ∷ vs) h = ground arith

pub write_patch-cons :
    (mem : Memory) (d : PatchData)
    → 0 < total d.iov
    → write_patch mem d ≡ patch_bytes d.hdr ++ flatten mem d.iov
unfolding write_patch
write_patch-cons mem d h = rw (not_one d.iov h)

pub open_hdr-nil :
    (d : PatchData) (offset : ℕ)
    → d.iov ≡ []
    → open_hdr d offset ≡ record { type = patch_res; offset = offset % u32_mod; len = 0 }
unfolding open_hdr
open_hdr-nil d offset e = let one : (niov d == 1) ≡ true = ground (arith, ap length e) in rw one

pub open_hdr-cons : (d : PatchData) (offset : ℕ) → 0 < total d.iov → open_hdr d offset ≡ d.hdr
unfolding open_hdr
open_hdr-cons d offset h = rw (not_one d.iov h)

-- The rounds of the loop.
module _ (mem : Memory) (v : Iovec) (vs : List Iovec) (skip len offset : ℕ) (d : PatchData)
    (out : List ℕ) where
  pub send_loop-done : len ≡ 0 → send_loop mem (v ∷ vs) skip len offset d out ≡ some (out, d)
  unfolding send_loop
  send_loop-done h = rw h

  pub send_loop-skip :
      0 < len
      → v.iov_len ≤ skip
      → offset + v.iov_len < u64_mod
      → send_loop mem (v ∷ vs) skip len offset d out
        ≡ send_loop mem vs (skip - v.iov_len) len (offset + v.iov_len) d out
  unfolding send_loop
  send_loop-skip h k m =
      let more : (len == 0) ≡ false = ground arith in
      let past : leb v.iov_len skip ≡ true = omega tests in
      let next : add64 offset v.iov_len ≡ offset + v.iov_len = omega arith in
      rw (more, past, next, send_loop)

  pub send_loop-use :
      {sent : List ℕ} {d' : PatchData}
      → 0 < len
      → skip < v.iov_len
      → offset + v.iov_len < u64_mod
      → add_patch mem d (offset + skip) (v.iov_base + skip) (min len (v.iov_len - skip))
        ≡ some (sent, d')
      → send_loop mem (v ∷ vs) skip len offset d out
        ≡ send_loop mem vs 0
            (len - min len (v.iov_len - skip))
            (offset + v.iov_len)
            d'
            (out ++ sent)
  unfolding send_loop
  send_loop-use h k m e =
      let more : (len == 0) ≡ false = ground arith in
      let inside : leb v.iov_len skip ≡ false = ground arith in
      let next : add64 offset v.iov_len ≡ offset + v.iov_len = omega arith in
      let place : add64 offset skip ≡ offset + skip = omega arith in
      let part : (if ltb len (v.iov_len - skip) then len else v.iov_len - skip)
          ≡ min len (v.iov_len - skip) =
        ground arith in
      rw (more, inside, place, part, e, next, part, send_loop)

  -- What an entry that is skipped, or used, contributes.
  pub part_skipped :
      v.iov_len ≤ skip → drop skip (flatten mem (v ∷ vs)) ≡ drop (skip - v.iov_len) (flatten mem vs)
  part_skipped h =
      drop-append_ge skip (load mem v.iov_base v.iov_len) (flatten mem vs)
        (omega (arith, length-load mem v.iov_base v.iov_len))
      ∙ ap (λ n. drop (skip - n) (flatten mem vs)) (length-load mem v.iov_base v.iov_len)

  pub part_used :
      skip < v.iov_len
      → take len (drop skip (flatten mem (v ∷ vs)))
        ≡ load mem (v.iov_base + skip) (min len (v.iov_len - skip))
          ++ take (len - min len (v.iov_len - skip)) (flatten mem vs)
  part_used h =
      ap (take len) (
        drop-append_le skip bytes (flatten mem vs) (omega (arith, size))
        ∙ ap (λ l. l ++ flatten mem vs) (drop-load mem v.iov_base v.iov_len skip (omega arith)))
      ∙ elim (dec_lt len room) [
        | yes last ↦
            let whole : min len room ≡ len = omega arith in
            let none_left : len - len ≡ 0 = omega arith in
            rw (whole, none_left, append-nil)
              (take-append_le len behind (flatten mem vs)
                  (omega (arith, length-load mem (v.iov_base + skip) room))
                ∙ take-load mem (v.iov_base + skip) room len (omega arith))
        | no more ↦
            let whole : min len room ≡ room = omega arith in
            rw whole (
              take-append_ge len behind (flatten mem vs)
                (omega (arith, length-load mem (v.iov_base + skip) room))
              ∙ ap (λ n. behind ++ take (len - n) (flatten mem vs))
                  (length-load mem (v.iov_base + skip) room))
      ]
    where
      room : ℕ
      room = v.iov_len - skip

      bytes : List ℕ
      bytes = load mem v.iov_base v.iov_len

      behind : List ℕ
      behind = load mem (v.iov_base + skip) room

      size : length bytes ≡ v.iov_len
      size = length-load mem v.iov_base v.iov_len

pub send_data_lem :
    (mem : Memory) (vs : List Iovec) (skip len : ℕ) (garbage : Patch) {out : List ℕ} {d : PatchData}
    → send_loop mem vs skip len 0 (record { hdr = garbage; iov = [] }) [] ≡ some (out, d)
    → gpu_device_send_data mem vs skip len garbage ≡ some (out ++ write_patch mem d)
unfolding gpu_device_send_data
send_data_lem mem vs skip len garbage e = rw (e, gpu_device_send_data)
