-- ===== src/Renderer/Load.antt =====
-- rvgpu-virgl.c, the receiving of a part of a resource: `load_resource_patched`. The input is the
-- list of the bytes that will arrive until the peer closes the connection.
pub mod Steps
pub mod Shorter
use remote_virtio_gpu.Prelude.{
  ℕ, zero, suc, ◌+◌, ◌-◌, List, [], ◌∷◌, Option, none, some, true, false, length, take, drop, ltb,
  ◌==◌, if◌then◌else◌, overwrite,
}
use remote_virtio_gpu.Wire.{Patch, patch_of, patch_size}

-- How the loop ends: with `true`, the memory of the resource and the input that is left; with
-- `false`, when the connection closed inside a patch; or in `errx`.
pub data Loaded : Type 0 where
  loaded : List ℕ → List ℕ → Loaded
  closed : List ℕ → Loaded
  wrong_patch : Loaded

-- One round of the loop, `next` being the rounds behind it. `memory` is `p[0].iov_base`, and its
-- length is `p[0].iov_len`.
pub load_round : (List ℕ → List ℕ → Loaded) → List ℕ → List ℕ → Loaded
load_round next input memory =
    if ltb (length input) patch_size
    then loaded memory []
    else let header = patch_of (take patch_size input) in
      let body = drop patch_size input in
      if header.len == 0
      then loaded memory body
      else if ltb (length memory) (header.offset + header.len)
      then wrong_patch
      else if ltb (length body) header.len
      then closed (overwrite memory header.offset body)
      else next (drop header.len body) (overwrite memory header.offset (take header.len body))

-- Fuel: a round takes a header's bytes from the input, so its length is enough.
load_loop : ℕ → List ℕ → List ℕ → Loaded
load_loop zero input memory = loaded memory input
load_loop (suc fuel) input memory = load_round (λ i m. load_loop fuel i m) input memory

pub load_resource_patched : List ℕ → List ℕ → Loaded
unfolding load_loop
load_resource_patched input memory = load_loop (suc (length input)) input memory
