-- ===== src/Device/Backing/Quiet.antt =====
-- The operations on resources leave the answers that wait.
use remote_virtio_gpu.Prelude.{ℕ, ◌≡◌, List, Bool, arith, Option-cases}
use remote_virtio_gpu.Virtio.{MemEntry}
use remote_virtio_gpu.Resource.Transfer.{ResInfo}
use remote_virtio_gpu.Resource.Table.{res_find, res_create}
use remote_virtio_gpu.Device.{Device}
use remote_virtio_gpu.Device.Backing.{
  free_res, gpu_device_create_res, gpu_device_destroy_res, gpu_device_attach, gpu_device_detach,
}

pub create_quiet :
    (memory : Bool) (g : Device) (id : ℕ) (info : ResInfo)
    → (gpu_device_create_res memory g id info).1.async_cmds ≡ g.async_cmds
unfolding gpu_device_create_res
create_quiet memory g id info = ground (
  arith,
  Option-cases (res_find id g.reslist),
  Option-cases (res_create memory info id g.reslist),
)

pub destroy_quiet :
    (g : Device) (id : ℕ) → (gpu_device_destroy_res g id).1.async_cmds ≡ g.async_cmds
unfolding gpu_device_destroy_res free_res
destroy_quiet g id = ground (arith, Option-cases (res_find id g.reslist))

pub attach_quiet :
    (m : ℕ → ℕ → ℕ) (memory : Bool) (g : Device) (id : ℕ) (mem : List MemEntry) (n : ℕ)
    → (gpu_device_attach m memory g id mem n).1.async_cmds ≡ g.async_cmds
unfolding gpu_device_attach
attach_quiet m memory g id mem n = ground (arith, Option-cases (res_find id g.reslist))

pub detach_quiet : (g : Device) (id : ℕ) → (gpu_device_detach g id).1.async_cmds ≡ g.async_cmds
unfolding gpu_device_detach
detach_quiet g id = ground (arith, Option-cases (res_find id g.reslist))
