-- ===== src/Patch/Pending.antt =====
-- What the patches that were sent deliver, while the array of `struct iovec` is filled.
use remote_virtio_gpu.Prelude.{
  ℕ, ◌+◌, ◌≤◌, ◌<◌, ◌≡◌, sym, ap, ◌∙◌, ◌⊎◌, List, [], ◌++◌, arith, length, overwrite, u32_mod,
  append_assoc, overwrite-overwrite, length-overwrite,
}
use remote_virtio_gpu.Memory.{Memory, flatten, total}
use remote_virtio_gpu.Wire.{Patch, patch_bytes, patch_res}
use remote_virtio_gpu.Renderer.Load.{load_resource_patched}
use remote_virtio_gpu.Renderer.Load.Steps.{load_resource_patched-patch}
use remote_virtio_gpu.Patch.{PatchData}

-- Reading `out` writes `payload` at `start`, whatever is read behind it.
abbrev pub Delivers : List ℕ → ℕ → List ℕ → List ℕ → Type 0
Delivers memory start out payload =
    (rest : List ℕ)
    → load_resource_patched (out ++ rest) memory
      ≡ load_resource_patched rest (overwrite memory start payload)

-- While `d` is filled: what was sent delivers `sent`, and the entries of `d` list the bytes behind.
pub record Pending (mem : Memory) (memory : List ℕ) (start : ℕ) (out : List ℕ) (d : PatchData)
    (payload : List ℕ) : Type 0 where
  pub sent : List ℕ
  pub delivers : Delivers memory start out sent
  pub split : payload ≡ sent ++ flatten mem d.iov
  pub begun :
      (d.iov ≡ [])
      ⊎ ((d.hdr.type ≡ patch_res)
          × (d.hdr.offset ≡ start + length sent)
          × (d.hdr.len ≡ total d.iov)
          × (0 < total d.iov))

-- One more patch behind what was sent.
pub Delivers-patch :
    (memory : List ℕ) (start : ℕ) (out sent payload : List ℕ) (p : Patch)
    → length memory < u32_mod
    → Delivers memory start out sent
    → p.type ≡ patch_res
    → p.offset ≡ start + length sent
    → p.len ≡ length payload
    → 0 < p.len
    → start + (length sent + length payload) ≤ length memory
    → Delivers memory start (out ++ (patch_bytes p ++ payload)) (sent ++ payload)
Delivers-patch memory start out sent payload p k h a b c e f rest =
    ap (λ l. load_resource_patched l memory) regroup
    ∙ h (patch_bytes p ++ (payload ++ rest))
    ∙ load_resource_patched-patch p payload rest (overwrite memory start sent) (omega arith)
        (omega arith) (omega arith) e (sym c) (omega (arith, length-overwrite memory start sent))
    ∙ ap (load_resource_patched rest) (overwrite-overwrite memory start p.offset sent payload b)
  where
    regroup :
        (out ++ (patch_bytes p ++ payload)) ++ rest ≡ out ++ (patch_bytes p ++ (payload ++ rest))
    regroup =
        append_assoc out (patch_bytes p ++ payload) rest
        ∙ ap (◌++◌ out) (append_assoc (patch_bytes p) payload rest)
