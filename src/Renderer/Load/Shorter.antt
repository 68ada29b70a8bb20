-- ===== src/Renderer/Load/Shorter.antt =====
-- Loading takes bytes from the input and adds none.
use remote_virtio_gpu.Prelude.{
  ℕ, zero, suc, ◌≤◌, ◌+◌, inl, inr, List, arith, length, take, drop, overwrite, ltb, ◌==◌,
  Bool-cases, length-drop,
}
use remote_virtio_gpu.Wire.{patch_of, patch_size}
use remote_virtio_gpu.Renderer.Load.{
  Loaded, loaded, closed, wrong_patch, load_round, load_loop, load_resource_patched,
}

-- What is left of an input of `n` bytes.
abbrev pub Shorter : ℕ → Loaded → Type 0
Shorter n (loaded memory rest) = length rest ≤ n
Shorter n (closed memory) = Unit {0}
Shorter n wrong_patch = Unit {0}

Shorter-le : (m n : ℕ) (l : Loaded) → m ≤ n → Shorter m l → Shorter n l
Shorter-le m n (loaded memory rest) h k = omega arith
Shorter-le m n (closed memory) h k = tt
Shorter-le m n wrong_patch h k = tt

load_round-Shorter :
    (next : List ℕ → List ℕ → Loaded) (input memory : List ℕ)
    → ((i m : List ℕ) → Shorter (length i) (next i m))
    → Shorter (length input) (load_round next input memory)
unfolding load_round
load_round-Shorter next input memory h =
    let header = patch_of (take patch_size input) in
    let body = drop patch_size input in
    let l1 = length-drop patch_size input in
    elim (Bool-cases (ltb (length input) patch_size)) [
      | inl a ↦ rw a (omega arith)
      | inr a ↦ elim (Bool-cases (header.len == 0)) [
        | inl b ↦ rw (a, b) (omega arith)
        | inr b ↦ elim (Bool-cases (ltb (length memory) (header.offset + header.len))) [
          | inl c ↦ rw (a, b, c) tt
          | inr c ↦ elim (Bool-cases (ltb (length body) header.len)) [
            | inl d ↦ rw (a, b, c, d) tt
            | inr d ↦
                let l2 = length-drop header.len body in
                rw (a, b, c, d)
                  (Shorter-le (length (drop header.len body)) (length input)
                    (next (drop header.len body)
                      (overwrite memory header.offset (take header.len body)))
                    (omega arith) (h (drop header.len body) _))
          ]
        ]
      ]
    ]

load_loop-Shorter :
    (fuel : ℕ) (input memory : List ℕ) → Shorter (length input) (load_loop fuel input memory)
unfolding load_loop
load_loop-Shorter zero input memory = omega arith
load_loop-Shorter (suc fuel) input memory =
    load_round-Shorter (λ i m. load_loop fuel i m) input memory (λ i m. load_loop-Shorter fuel i m)

pub load_resource_patched-Shorter :
    (input memory : List ℕ) → Shorter (length input) (load_resource_patched input memory)
unfolding load_resource_patched
load_resource_patched-Shorter input memory = load_loop-Shorter (suc (length input)) input memory
