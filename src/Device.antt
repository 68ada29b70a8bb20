-- ===== src/Device.antt =====
-- rvgpu-gpu-device.c: the state of the virtual GPU, and the parts of its service.
pub mod Backing
pub mod Fences
pub mod Submit
pub mod Drain
pub mod FromHost
pub mod Capset
pub mod Service
pub mod Requests
use remote_virtio_gpu.Prelude.{ℕ, List, [], Bool}
use remote_virtio_gpu.Virtio.{Resp}
use remote_virtio_gpu.Resource.Transfer.{Res}

-- `struct gpu_capdata`: the header, `struct capset`, and the data.
pub record Capdata : Type 0 where
  pub id : ℕ
  pub version : ℕ
  pub size : ℕ
  pub bytes : List ℕ

-- The fields of an answer's `struct virtio_gpu_ctrl_hdr` that are set.
pub record RespHdr : Type 0 where
  pub type : Resp
  pub flags : ℕ
  pub fence_id : ℕ
  pub ctx_id : ℕ

-- `struct cmd`: an answer that waits for its fence, and its request.
pub record Waiting : Type 0 where
  pub hdr : RespHdr
  pub req : ℕ

-- `struct gpu_device`, with the list of resources that its backend keeps. `capdata` holds the first
-- `ncapdata` capsets.
pub record Device : Type 0 where
  pub max_mem : ℕ
  pub curr_mem : ℕ
  pub scanres : ℕ
  pub scan_id : ℕ
  pub capdata : List Capdata
  pub reslist : List Res
  pub async_cmds : List Waiting
