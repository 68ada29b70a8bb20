-- ===== src/Patch.antt =====
-- rvgpu-res.c, the sending of a part of a resource: `struct patch_data`, `write_patch`,
-- `init_patch`, `add_patch` and `gpu_device_send_data`. What is sent is the list of the bytes that
-- are handed to `rvgpu_ctx_send`, in the order of its calls. `none` is a failed `assert`.
pub mod Delivery
pub mod Pending
pub mod Rounds
use remote_virtio_gpu.Prelude.{
  ℕ, suc, ◌+◌, ◌-◌, List, [], ◌∷◌, ◌++◌, Option, none, some, true, false, length, ltb, leb, ◌==◌,
  if◌then◌else◌, add64, add32, u32_mod, ◌%◌,
}
use remote_virtio_gpu.Memory.{Memory, Iovec, flatten}
use remote_virtio_gpu.Wire.{Patch, patch_bytes, patch_res}

-- `__IOV_MAX`
abbrev pub iov_max : ℕ
iov_max = 1024

-- `struct patch_data`. `iov[0]` is reserved for the header, so `iov` is what stands from `iov[1]` on.
pub record PatchData : Type 0 where
  pub hdr : Patch
  pub iov : List Iovec

abbrev pub niov : PatchData → ℕ
niov d = suc (length d.iov)

pub write_patch : Memory → PatchData → List ℕ
write_patch mem d = if niov d == 1 then [] else patch_bytes d.hdr ++ flatten mem d.iov

pub init_patch : PatchData → PatchData
init_patch d = record d { iov = [] }

-- The header before an entry is added: the first entry sets it.
pub open_hdr : PatchData → ℕ → Patch
open_hdr d offset =
    if niov d == 1 then record { type = patch_res; offset = offset % u32_mod; len = 0 } else d.hdr

-- The part of `add_patch` behind the `assert`.
pub append_iov : PatchData → ℕ → Iovec → PatchData
unfolding open_hdr
append_iov d offset v =
    let hdr = open_hdr d offset in
    record { hdr = record hdr { len = add32 hdr.len v.iov_len }; iov = d.iov ++ (v ∷ []) }

-- A full array is written out first. The answer is what was sent, and the array.
pub add_patch : Memory → PatchData → ℕ → ℕ → ℕ → Option (List ℕ × PatchData)
unfolding append_iov init_patch write_patch
add_patch mem d offset base len =
    let full = niov d == iov_max in
    let sent = if full then write_patch mem d else [] in
    let d' = if full then init_patch d else d in
    if ltb offset (u32_mod - 1)
    then some (sent, append_iov d' offset (record { iov_base = base; iov_len = len }))
    else none

-- The loop of `gpu_device_send_data`, over the entries of `iovs` that are left.
pub send_loop : Memory → List Iovec → ℕ → ℕ → ℕ → PatchData → List ℕ → Option (List ℕ × PatchData)
send_loop mem [] skip len offset d out = some (out, d)
send_loop mem (v ∷ vs) skip len offset d out = elim (len == 0) [
  | true ↦ some (out, d)
  | false ↦ elim (leb v.iov_len skip) [
    | true ↦ send_loop mem vs (skip - v.iov_len) len (add64 offset v.iov_len) d out
    | false ↦
        let room = v.iov_len - skip in
        let l = if ltb len room then len else room in
        elim (add_patch mem d (add64 offset skip) (v.iov_base + skip) l) [
          | none ↦ none
          | some (sent, d') ↦ send_loop mem vs 0 (len - l) (add64 offset v.iov_len) d' (out ++ sent)
        ]
  ]
]

-- `d` is not initialised but for `niov`: its header is whatever the stack held.
unfoldable pub gpu_device_send_data : Memory → List Iovec → ℕ → ℕ → Patch → Option (List ℕ)
unfolding send_loop write_patch add_patch
gpu_device_send_data mem iovs skip len garbage =
    elim (send_loop mem iovs skip len 0 (record { hdr = garbage; iov = [] }) []) [
      | none ↦ none
      | some (out, d) ↦ some (out ++ write_patch mem d)
    ]
