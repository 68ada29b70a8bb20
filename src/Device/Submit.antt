-- ===== src/Device/Submit.antt =====
-- rvgpu-gpu-device.c: `gpu_device_send_res`, and the transfers inside the buffer of a SUBMIT_3D
-- command.
pub mod Ends
pub mod Commands
pub mod Joined
use remote_virtio_gpu.Prelude.{
  ℕ, zero, suc, ◌+◌, ◌*◌, ◌/◌, List, [], ◌∷◌, ◌++◌, Option, none, some, Bool, true, false, ltb,
  ◌==◌, if◌then◌else◌, add32, get_elem?,
}
use remote_virtio_gpu.Memory.{Memory}
use remote_virtio_gpu.Wire.{Patch}
use remote_virtio_gpu.Virtio.{
  Resp, ok_nodata, err_invalid_resource_id, err_invalid_parameter, Layout,
}
use remote_virtio_gpu.Resource.Transfer.{ResTransfer, rvgpu_ctx_transfer_to_host}
use remote_virtio_gpu.Resource.Table.{res_find}
use remote_virtio_gpu.Device.{Device}

-- What the service finds around it: the sizes of the structures of linux/virtio_gpu.h, whether
-- `calloc` finds memory, `map_guest`, the bytes at the mapped addresses, the stack of
-- `gpu_device_send_data`, the words behind the end of a command's buffer, and `sizeof` of the
-- members of `union virtio_gpu_resp`.
pub record Env : Type 0 where
  pub layout : Layout
  pub memory : Bool
  pub map_guest : ℕ → ℕ → ℕ
  pub guest : Memory
  pub garbage : Patch
  pub stale : ℕ → ℕ
  pub rdi_size : ℕ
  pub ci_size : ℕ
  pub c_size : ℕ

-- The answer, and what is sent to the renderers; `none` is a failed `assert`.
unfoldable pub gpu_device_send_res : Env → Device → ℕ → ResTransfer → Option (Resp × List ℕ)
gpu_device_send_res env g resid t = elim (res_find resid g.reslist) [
  | none ↦ some (err_invalid_resource_id, [])
  | some res ↦ elim res.backing [
    | none ↦ some (err_invalid_parameter, [])
    | some backing ↦ elim (rvgpu_ctx_transfer_to_host env.guest t res.info backing env.garbage) [
      | none ↦ none
      | some out ↦ some (ok_nodata, out)
    ]
  ]
]

-- The headers `VIRGL_CMD0(VIRGL_CCMD_TRANSFER3D, 0, VIRGL_TRANSFER3D_SIZE)` and
-- `VIRGL_CMD0(VIRGL_CCMD_COPY_TRANSFER3D, 0, VIRGL_COPY_TRANSFER3D_SIZE)`.
abbrev pub transfer3d_header : ℕ
transfer3d_header = 43 + 13 * 65536

abbrev pub copy_transfer3d_header : ℕ
copy_transfer3d_header = 45 + 14 * 65536

-- `c_submit_buf[i]`; behind the end of the buffer stands what the static buffer held.
abbrev pub word : Env → List ℕ → ℕ → ℕ
word env words i = elim (get_elem? words i) [ none ↦ env.stale i | some n ↦ n ]

-- The transfer of a command whose words stand from `at` on, with its offset in the resource.
abbrev pub words_transfer : (ℕ → ℕ) → ℕ → ResTransfer
words_transfer buf offset = record {
  x = buf 6;
  y = buf 7;
  z = buf 8;
  w = buf 9;
  h = buf 10;
  d = buf 11;
  level = buf 2;
  stride = buf 4;
  layer_stride = buf 5;
  offset = offset;
}

-- One pass of the `switch`: the new answer and what is sent, from the answer before.
unfoldable pub submit_command : Env → Device → (ℕ → ℕ) → Resp → Option (Resp × List ℕ)
submit_command env g buf type =
    let header = buf 0 in
    if header == transfer3d_header
    then gpu_device_send_res env g (buf 1) (words_transfer buf (buf 12))
    else if header == copy_transfer3d_header
    then gpu_device_send_res env g (buf 12) (words_transfer buf (buf 13))
    else some (type, [])

-- How a run ends: with a result, by a failed `assert`, or not on its fuel.
pub data Run {ℓ} (A : Type ℓ) : Type ℓ where
  result : A → Run A
  aborted : Run A
  unfinished : Run A

unfoldable pub submit_loop : Env → Device → List ℕ → ℕ → ℕ → ℕ → Resp → List ℕ → Run (Resp × List ℕ)
submit_loop env g words size zero offset type out = unfinished
submit_loop env g words size (suc fuel) offset type out = elim (ltb offset (size / 4)) [
  | false ↦ result (type, out)
  | true ↦
      let buf : ℕ → ℕ = λ i. word env words (offset + i) in
      let next = add32 offset (buf 0 / 65536 + 1) in
      elim (submit_command env g buf type) [
        | none ↦ aborted
        | some (type', sent) ↦ submit_loop env g words size fuel next type' (out ++ sent)
      ]
]

-- On fuel for each word and one more.
unfoldable pub gpu_device_handle_submit_3d : Env → Device → ℕ → List ℕ → Resp → Run (Resp × List ℕ)
gpu_device_handle_submit_3d env g size words type =
    submit_loop env g words size (suc (size / 4)) 0 type []
