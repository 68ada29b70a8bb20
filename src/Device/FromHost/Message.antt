-- ===== src/Device/FromHost/Message.antt =====
-- rvgpu-gpu-device.c: `resource_transfer`, and what `resource_thread_func` does with a message that a
-- renderer sent.
use remote_virtio_gpu.Prelude.{
  ℕ, ◌+◌, ◌*◌, ◌/◌, ◌^◌, List, Option, none, some, Bool, true, false, ◌&&◌, not, take, drop, ◌==◌,
  if◌then◌else◌, mul32, get_or, length, ltb,
}
use remote_virtio_gpu.Memory.{Memory, Iovec}
use remote_virtio_gpu.Wire.{Patch, patch_of, patch_size, header_of, header_size, u32_at}
use remote_virtio_gpu.Virtio.{Transfer3d}
use remote_virtio_gpu.Renderer.Upload.{transfer_host_3d_size}
use remote_virtio_gpu.Resource.Format.{get_format_bpp}
use remote_virtio_gpu.Resource.Transfer.{ResInfo, Res}
use remote_virtio_gpu.Resource.Table.{res_find}
use remote_virtio_gpu.Device.Fences.{Reached, recv_fence}
use remote_virtio_gpu.Device.FromHost.{read_from_pipe, resource_update}
use remote_virtio_gpu.Device.FromHost.Box.{copied, too_small, overrun, copy_lines}

-- `struct virtio_gpu_transfer_host_3d` behind its header of 24 bytes; `offset` is a `uint64_t`.
unfoldable pub transfer_of : List ℕ → Transfer3d
unfolding u32_at
transfer_of bs = record {
  box = record {
    x = u32_at bs 24;
    y = u32_at bs 28;
    z = u32_at bs 32;
    w = u32_at bs 36;
    h = u32_at bs 40;
    d = u32_at bs 44;
  };
  offset = u32_at bs 48 + 4294967296 * u32_at bs 52;
  resource_id = u32_at bs 56;
  level = u32_at bs 60;
  stride = u32_at bs 64;
  layer_stride = u32_at bs 68;
}

-- The function returns, with the guest's memory and what is left in the pipe; the program ends in
-- `err`; or it reads behind the end of `res_data`.
pub data Outcome : Type 0 where
  returned : Memory → List ℕ → Outcome
  exited : Outcome
  past_end : Outcome

-- The stride of the lines in the resource.
abbrev pub line_stride : Transfer3d → ResInfo → ℕ
line_stride t info =
    if not (t.stride == 0)
    then t.stride
    else mul32 (get_format_bpp info.format) (info.width / 2 ^ t.level)

-- The case of a box that is a part of the resource. `allocated` is that `malloc` finds memory.
unfoldable pub transfer_lines :
    Bool → Memory → List Iovec → Transfer3d → ResInfo → Patch → List ℕ → Outcome
transfer_lines false mem backing t info patch pipe = returned mem pipe
transfer_lines true mem backing t info patch pipe = elim (read_from_pipe patch.len pipe) [
  | none ↦ exited
  | some (res_data, pipe') ↦
      let width = mul32 t.box.w (get_format_bpp info.format) in
      elim (copy_lines t.box.h 0 mem backing 0 patch.offset (line_stride t info) width res_data) [
        | copied mem' ↦ returned mem' pipe'
        | too_small mem' missing ↦ returned mem' pipe'
        | overrun ↦ past_end
      ]
]

-- Behind the three structures that are read first.
unfoldable pub transfer_payload : Bool → Memory → List Res → Transfer3d → Patch → List ℕ → Outcome
transfer_payload allocated mem resources t patch pipe = elim (res_find t.resource_id resources) [
  | none ↦ returned mem pipe
  | some res ↦ elim res.backing [
    | none ↦ returned mem pipe
    | some backing ↦ elim (t.box.w == res.info.width && t.box.h == res.info.height) [
      | true ↦ elim (resource_update mem backing patch.offset patch.len pipe) [
        | none ↦ exited
        | some (mem', pipe') ↦ returned mem' pipe'
      ]
      | false ↦ transfer_lines allocated mem backing t res.info patch pipe
    ]
  ]
]

unfoldable pub resource_transfer : Bool → Memory → List Res → List ℕ → Outcome
resource_transfer allocated mem resources pipe = elim (read_from_pipe header_size pipe) [
  | none ↦ exited
  | some (header, pipe1) ↦ elim ((header_of header).size == transfer_host_3d_size) [
    | false ↦ exited
    | true ↦ elim (read_from_pipe transfer_host_3d_size pipe1) [
      | none ↦ exited
      | some (t, pipe2) ↦ elim (read_from_pipe patch_size pipe2) [
        | none ↦ exited
        | some (patch, pipe3) ↦
            transfer_payload allocated mem resources (transfer_of t) (patch_of patch) pipe3
      ]
    ]
  ]
]

-- `struct rvgpu_res_message_header`: the type, RVGPU_FENCE or RVGPU_RES_TRANSFER, and the fence.
abbrev pub message_size : ℕ
message_size = 8

abbrev pub rvgpu_fence : ℕ
rvgpu_fence = 8

abbrev pub rvgpu_res_transfer : ℕ
rvgpu_res_transfer = 16

-- What a message leads to: a fence for the pipe between the threads, when one is written, with the
-- fences that the scanouts have reported; what `resource_transfer` did; nothing, for another type; or
-- the failed assert on a short read.
pub data Served : Type 0 where
  fenced : Option ℕ → Reached → List ℕ → Served
  transferred : Outcome → Served
  skipped : List ℕ → Served
  stopped : Served

-- The body of the loop for scanout `i`.
unfoldable pub serve_message : Bool → Memory → List Res → ℕ → Reached → List ℕ → Served
serve_message allocated mem resources i reached pipe = elim (ltb (length pipe) message_size) [
  | true ↦ stopped
  | false ↦
      let msg = take message_size pipe in
      let rest = drop message_size pipe in
      let type = get_or msg 0 0 in
      elim (type == rvgpu_fence) [
        | true ↦
            let (fence, reached') = recv_fence i (u32_at msg 4) reached in
            fenced fence reached' rest
        | false ↦ elim (type == rvgpu_res_transfer) [
          | true ↦ transferred (resource_transfer allocated mem resources rest)
          | false ↦ skipped rest
        ]
      ]
]
