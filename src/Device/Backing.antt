-- ===== src/Device/Backing.antt =====
-- rvgpu-gpu-device.c: creating and destroying resources, attaching guest memory to them, and the
-- limit on that memory. `map` is `map_guest`, from an address and a length to the mapped address;
-- `memory` says whether `calloc` finds memory.
pub mod Account
pub mod Kept
pub mod Quiet
pub mod Limit
mod Tests
use remote_virtio_gpu.Prelude.{
  ℕ, ◌+◌, List, [], ◌∷◌, Option, none, some, Bool, true, false, ◌&&◌, ltb, ◌!=◌, if◌then◌else◌,
  add64, sub64, map, take,
}
use remote_virtio_gpu.Memory.{Iovec}
use remote_virtio_gpu.Virtio.{
  MemEntry, Resp, ok_nodata, err_invalid_resource_id, err_out_of_memory, err_invalid_parameter,
}
use remote_virtio_gpu.Resource.Transfer.{ResInfo, Res}
use remote_virtio_gpu.Resource.Table.{res_find, res_create, res_destroy, res_update}
use remote_virtio_gpu.Device.{Device}

-- `g->curr_mem -= res->backing[i].iov_len`, for each entry.
pub subtract_lens : ℕ → List Iovec → ℕ
subtract_lens curr [] = curr
subtract_lens curr (v ∷ vs) = subtract_lens (sub64 curr v.iov_len) vs

-- `sentsize += mem[i].length`, for each entry.
pub sum_lens : ℕ → List MemEntry → ℕ
sum_lens sent [] = sent
sum_lens sent (e ∷ es) = sum_lens (add64 sent e.length) es

-- `backing[0]` to `backing[nbacking - 1]`: a null `backing` comes with `nbacking` 0.
abbrev pub entries : Option (List Iovec) → List Iovec
entries none = []
entries (some vs) = vs

-- `gpu_device_free_res`
pub free_res : Device → Res → Device
free_res g r = record g { curr_mem = subtract_lens g.curr_mem (entries r.backing) }

pub gpu_device_create_res : Bool → Device → ℕ → ResInfo → Resp × Device
gpu_device_create_res memory g resid info = elim (res_find resid g.reslist) [
  | some r ↦ (err_invalid_resource_id, g)
  | none ↦ elim (res_create memory info resid g.reslist) [
    | none ↦ (err_out_of_memory, g)
    | some rs ↦ (ok_nodata, record g { reslist = rs })
  ]
]

pub gpu_device_destroy_res : Device → ℕ → Resp × Device
gpu_device_destroy_res g resid = elim (res_find resid g.reslist) [
  | none ↦ (err_invalid_resource_id, g)
  | some r ↦
      let g' = free_res g r in (ok_nodata, record g' { reslist = res_destroy resid g'.reslist })
]

abbrev pub set_backing : Option (List Iovec) → Res → Res
set_backing b r = record r { backing = b }

-- The entries of `res->backing`.
abbrev pub map_entries : (ℕ → ℕ → ℕ) → List MemEntry → List Iovec
map_entries map_guest [] = []
map_entries map_guest (e ∷ es) =
    record { iov_base = map_guest e.addr e.length; iov_len = e.length } ∷ map_entries map_guest es

-- Past the limit the backing is taken back.
pub gpu_device_attach : (ℕ → ℕ → ℕ) → Bool → Device → ℕ → List MemEntry → ℕ → Resp × Device
gpu_device_attach map_guest memory g resid mem n = elim (res_find resid g.reslist) [
  | none ↦ (err_invalid_resource_id, g)
  | some r ↦ elim r.backing [
    | some vs ↦ (err_invalid_parameter, g)
    | none ↦
        let mapped = take n mem in
        let sentsize = sum_lens 0 mapped in
        let attached : Device = record g {
          reslist = res_update resid (set_backing (some (map_entries map_guest mapped))) g.reslist;
        } in
        if memory
        then if g.max_mem != 0 && ltb g.max_mem (add64 g.curr_mem sentsize)
          then (
            err_out_of_memory,
            record attached { reslist = res_update resid (set_backing none) attached.reslist },
          )
          else (ok_nodata, record attached { curr_mem = add64 g.curr_mem sentsize })
        else (err_out_of_memory, g)
  ]
]

pub gpu_device_detach : Device → ℕ → Resp × Device
gpu_device_detach g resid = elim (res_find resid g.reslist) [
  | none ↦ (err_invalid_resource_id, g)
  | some r ↦ elim r.backing [
    | none ↦ (err_invalid_parameter, g)
    | some vs ↦ (
      ok_nodata,
      record g {
        curr_mem = subtract_lens g.curr_mem vs;
        reslist = res_update resid (set_backing none) g.reslist;
      },
    )
  ]
]
