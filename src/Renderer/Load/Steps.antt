-- ===== src/Renderer/Load/Steps.antt =====
-- `load_resource_patched` one patch at a time, with no fuel to be seen.
use remote_virtio_gpu.Prelude.{
  ℕ, zero, suc, ◌+◌, ◌≤◌, ◌<◌, ◌≡◌, sym, ap, ◌∙◌, inl, inr, List, ◌++◌, arith, length, take, drop,
  overwrite, ltb, ◌==◌, true, false, u32_mod, Bool-cases, length-drop, length-append, take-append,
  drop-append,
}
use remote_virtio_gpu.Wire.{Patch, patch_of, patch_size, patch_bytes}
use remote_virtio_gpu.Wire.Laws.{length-patch_bytes, patch_of-patch_bytes}
use remote_virtio_gpu.Renderer.Load.{Loaded, loaded, load_round, load_loop, load_resource_patched}

-- A round asks for the rest on shorter inputs only.
load_round_ext :
    (f g : List ℕ → List ℕ → Loaded) (input memory : List ℕ)
    → ((i m : List ℕ) → length i < length input → f i m ≡ g i m)
    → load_round f input memory ≡ load_round g input memory
unfolding load_round
load_round_ext f g input memory h = elim (Bool-cases (ltb (length input) patch_size)) [
  | inl short ↦ rw short
  | inr whole ↦
      let header = patch_of (take patch_size input) in
      let body = drop patch_size input in
      rw (
        h (drop header.len body) (overwrite memory header.offset (take header.len body))
          (shorter header.len whole))
]
  where
    shorter :
        (n : ℕ)
        → ltb (length input) patch_size ≡ false
        → length (drop n (drop patch_size input)) < length input
    shorter n whole =
        ground (arith, length-drop n (drop patch_size input), length-drop patch_size input)

load_loop_fuel :
    (n m : ℕ) (input memory : List ℕ)
    → length input < n
    → length input < m
    → load_loop n input memory ≡ load_loop m input memory
unfolding load_loop
load_loop_fuel zero m input memory h k = absurd (omega arith)
load_loop_fuel (suc n) zero input memory h k = absurd (omega arith)
load_loop_fuel (suc n) (suc m) input memory h k =
    load_round_ext (load_loop n) (load_loop m) input memory
      (λ i mem lt. load_loop_fuel n m i mem (omega arith) (omega arith))

-- The loop without its fuel.
pub load_resource_patched_lem :
    (input memory : List ℕ)
    → load_resource_patched input memory ≡ load_round load_resource_patched input memory
unfolding load_resource_patched load_loop
load_resource_patched_lem input memory =
    load_round_ext (load_loop (length input)) load_resource_patched input memory
      (λ i m lt. load_loop_fuel (length input) (suc (length i)) i m lt (omega arith))

-- A patch that fits in the memory is written there, and the loop goes on behind it.
pub load_resource_patched-patch :
    (p : Patch) (payload rest memory : List ℕ)
    → p.type < 256
    → p.offset < u32_mod
    → p.len < u32_mod
    → 0 < p.len
    → length payload ≡ p.len
    → p.offset + p.len ≤ length memory
    → load_resource_patched (patch_bytes p ++ (payload ++ rest)) memory
      ≡ load_resource_patched rest (overwrite memory p.offset payload)
load_resource_patched-patch p payload rest memory a b c d e f =
    load_resource_patched_lem (patch_bytes p ++ (payload ++ rest)) memory ∙ round
  where
    whole : ltb (length (patch_bytes p ++ (payload ++ rest))) patch_size ≡ false
    whole = ground (arith, length-append (patch_bytes p) (payload ++ rest), length-patch_bytes p)

    header : patch_of (take patch_size (patch_bytes p ++ (payload ++ rest))) ≡ p
    header =
        ap patch_of
          (take-append patch_size (patch_bytes p) (payload ++ rest) (sym (length-patch_bytes p)))
        ∙ patch_of-patch_bytes p a b c

    body : drop patch_size (patch_bytes p ++ (payload ++ rest)) ≡ payload ++ rest
    body = drop-append patch_size (patch_bytes p) (payload ++ rest) (sym (length-patch_bytes p))

    nonzero : (p.len == 0) ≡ false
    nonzero = ground arith

    fits : ltb (length memory) (p.offset + p.len) ≡ false
    fits = ground arith

    enough : ltb (length (payload ++ rest)) p.len ≡ false
    enough = ground (arith, length-append payload rest)

    round :
        load_round load_resource_patched (patch_bytes p ++ (payload ++ rest)) memory
        ≡ load_resource_patched rest (overwrite memory p.offset payload)
    round =
        unfold load_round in
        rw (whole, header, body, nonzero, fits, enough)
          (ap
              (λ l.
                load_resource_patched l (overwrite memory p.offset (take p.len (payload ++ rest))))
              (drop-append p.len payload rest (sym e))
            ∙ ap (λ l. load_resource_patched rest (overwrite memory p.offset l))
                (take-append p.len payload rest (sym e)))

-- The patch of length 0 ends the loop.
pub load_resource_patched-end :
    (p : Patch) (rest memory : List ℕ)
    → p.type < 256
    → p.offset < u32_mod
    → p.len ≡ 0
    → load_resource_patched (patch_bytes p ++ rest) memory ≡ loaded memory rest
load_resource_patched-end p rest memory a b c =
    load_resource_patched_lem (patch_bytes p ++ rest) memory ∙ round
  where
    whole : ltb (length (patch_bytes p ++ rest)) patch_size ≡ false
    whole = ground (arith, length-append (patch_bytes p) rest, length-patch_bytes p)

    header : patch_of (take patch_size (patch_bytes p ++ rest)) ≡ p
    header =
        ap patch_of (take-append patch_size (patch_bytes p) rest (sym (length-patch_bytes p)))
        ∙ patch_of-patch_bytes p a b (omega arith)

    body : drop patch_size (patch_bytes p ++ rest) ≡ rest
    body = drop-append patch_size (patch_bytes p) rest (sym (length-patch_bytes p))

    zero_len : (p.len == 0) ≡ true
    zero_len = ground arith

    round : load_round load_resource_patched (patch_bytes p ++ rest) memory ≡ loaded memory rest
    round = unfold load_round in rw (whole, header, body, zero_len)
