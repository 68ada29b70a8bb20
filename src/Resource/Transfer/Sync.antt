-- ===== src/Resource/Transfer/Sync.antt =====
-- A transfer brings the renderer's copy of a resource up to date.
use remote_virtio_gpu.Prelude.{
  ℕ, ◌-◌, ◌≤◌, ◌<◌, ◌≡◌, refl, ap, ◌∙◌, inl, inr, List, [], ◌++◌, arith, some, true, false, ◌&&◌,
  ◌==◌, length, take, drop, overwrite, overwrite-nil, append_assoc, Bool-cases, u32_mod,
}
use remote_virtio_gpu.Memory.{Memory, Iovec, flatten, total}
use remote_virtio_gpu.Wire.{Patch, patch_bytes}
use remote_virtio_gpu.Patch.{gpu_device_send_data}
use remote_virtio_gpu.Patch.Delivery.{send_data-Delivers}
use remote_virtio_gpu.Renderer.Load.{loaded, load_resource_patched}
use remote_virtio_gpu.Renderer.Load.Steps.{load_resource_patched-end}
use remote_virtio_gpu.Resource.Transfer.{
  ResInfo, ResTransfer, transfer_size, rvgpu_ctx_transfer_to_host, end_patch,
}

-- The part of the backing that a transfer sends.
abbrev pub sent_part : Memory → ResTransfer → ResInfo → List Iovec → List ℕ
sent_part mem t info backing = take (transfer_size info t) (drop t.offset (flatten mem backing))

end_lem :
    (rest memory : List ℕ)
    → load_resource_patched (patch_bytes end_patch ++ rest) memory ≡ loaded memory rest
end_lem rest memory =
    load_resource_patched-end end_patch rest memory (omega arith) (omega arith) refl

module _ (mem : Memory) (t : ResTransfer) (info : ResInfo) (backing : List Iovec)
    (garbage : Patch) where
  transfer_empty :
      (info.target == 0 && transfer_size info t == 0) ≡ true
      → rvgpu_ctx_transfer_to_host mem t info backing garbage ≡ some (patch_bytes end_patch)
  unfolding rvgpu_ctx_transfer_to_host
  transfer_empty e = rw e

  transfer_sends :
      {out : List ℕ}
      → (info.target == 0 && transfer_size info t == 0) ≡ false
      → gpu_device_send_data mem backing t.offset (transfer_size info t) garbage ≡ some out
      → rvgpu_ctx_transfer_to_host mem t info backing garbage ≡ some (out ++ patch_bytes end_patch)
  unfolding rvgpu_ctx_transfer_to_host
  transfer_sends e f = rw (e, f)

  empty_part :
      (info.target == 0 && transfer_size info t == 0) ≡ true → sent_part mem t info backing ≡ []
  empty_part e = let none_left : transfer_size info t ≡ 0 = ground arith in rw none_left

-- `rvgpu_ctx_transfer_to_host` fails no `assert`, and the renderer that reads what it sent, with
-- whatever follows, with `load_resource_patched` into a copy of at least the backing's size, ends
-- without error, has read exactly what was sent, and has written the bytes of the backing from the
-- transfer's offset on, as many as the transfer's size, at their place, and nothing else.
pub transfer_to_host_synced :
    (mem : Memory) (t : ResTransfer) (info : ResInfo) (backing : List Iovec) (garbage : Patch)
    (memory : List ℕ)
    → total backing ≤ length memory
    → length memory < u32_mod - 1
    → (out : List ℕ) × (rvgpu_ctx_transfer_to_host mem t info backing garbage ≡ some out)
      × ((rest : List ℕ)
          → load_resource_patched (out ++ rest) memory
            ≡ loaded (overwrite memory t.offset (sent_part mem t info backing)) rest)
transfer_to_host_synced mem t info backing garbage memory h k =
    elim (Bool-cases (info.target == 0 && transfer_size info t == 0)) [
      | inl empty ↦ (
        patch_bytes end_patch,
        transfer_empty mem t info backing garbage empty,
        λ rest.
            rw (empty_part mem t info backing garbage empty, overwrite-nil) (end_lem rest memory),
      )
      | inr more ↦
          let (out, sends, delivers) =
            send_data-Delivers mem memory t.offset k backing (transfer_size info t) garbage h in
          (
            out ++ patch_bytes end_patch,
            transfer_sends mem t info backing garbage more sends,
            λ rest.
                ap (λ l. load_resource_patched l memory)
                  (append_assoc out (patch_bytes end_patch) rest)
                ∙ delivers (patch_bytes end_patch ++ rest)
                ∙ end_lem rest (overwrite memory t.offset (sent_part mem t info backing)),
          )
    ]
