-- ===== src/Device/FromHost.antt =====
-- rvgpu-gpu-device.c: `read_from_pipe` and `resource_update`, which write what the renderer sent
-- into the guest's memory. The pipe is the list of the bytes that will arrive.
pub mod Spread
pub mod Box
pub mod Front
pub mod Lines
pub mod BoxLines
pub mod Message
pub mod BoxSynced
pub mod Update
pub mod Synced
mod Tests
use remote_virtio_gpu.Prelude.{
  ℕ, ◌+◌, ◌-◌, List, [], ◌∷◌, Option, none, some, true, false, length, take, drop, ltb, leb, ◌==◌,
  if◌then◌else◌,
}
use remote_virtio_gpu.Memory.{Memory, Iovec, store}

-- `none` is the `err` of a short read.
pub read_from_pipe : ℕ → List ℕ → Option (List ℕ × List ℕ)
read_from_pipe size pipe =
    if ltb (length pipe) size then none else some (take size pipe, drop size pipe)

-- The memory, and what is left in the pipe.
pub resource_update : Memory → List Iovec → ℕ → ℕ → List ℕ → Option (Memory × List ℕ)
resource_update mem [] skip len pipe = some (mem, pipe)
resource_update mem (v ∷ vs) skip len pipe = elim (len == 0) [
  | true ↦ some (mem, pipe)
  | false ↦ elim (leb v.iov_len skip) [
    | true ↦ resource_update mem vs (skip - v.iov_len) len pipe
    | false ↦
        let room = v.iov_len - skip in
        let l = if ltb len room then len else room in
        elim (read_from_pipe l pipe) [
          | none ↦ none
          | some (bytes, pipe') ↦
              resource_update (store mem (v.iov_base + skip) bytes) vs 0 (len - l) pipe'
        ]
  ]
]
