-- ===== src/Renderer/Frame.antt =====
-- rvgpu-virgl.c: how the loop of `rvgpu_pr_dispatch` reads a command. The input is the list of the
-- bytes that will arrive.
pub mod Forwarded
mod Tests
use remote_virtio_gpu.Prelude.{
  ℕ, List, [], ◌∷◌, length, take, drop, ltb, ◌==◌, true, false, if◌then◌else◌,
}
use remote_virtio_gpu.Wire.{Header, header_of, header_size}

-- A command with its header and the input behind it; the end of the loop, when no header or nothing
-- of the command arrives; or one of the two calls of `errx`.
pub data Frame : Type 0 where
  frame : Header → List ℕ → List ℕ → Frame
  finished : Frame
  too_long : Frame
  too_short : Frame

-- `cmd_size` is `sizeof(union virtio_gpu_cmd)`.
unfoldable pub read_frame : ℕ → List ℕ → Frame
read_frame cmd_size input = elim (ltb (length input) header_size) [
  | true ↦ finished
  | false ↦
      let uhdr = header_of (take header_size input) in
      let behind = drop header_size input in
      elim (ltb cmd_size uhdr.size) [
        | true ↦ too_long
        | false ↦ elim (ltb (length behind) uhdr.size) [
          | true ↦ if length behind == 0 then finished else too_short
          | false ↦ frame uhdr (take uhdr.size behind) (drop uhdr.size behind)
        ]
      ]
]
