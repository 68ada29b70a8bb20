-- ===== src/Device/Capset.antt =====
-- rvgpu-gpu-device.c: `gpu_capset_init`, which reads the capsets from a file. A `read` from a file
-- gives as many of the bytes that are left as were asked for.
pub mod Laws
mod Tests
use remote_virtio_gpu.Prelude.{
  ℕ, zero, suc, List, [], ◌∷◌, ◌++◌, Bool, true, false, ltb, ◌!=◌, length, take, drop,
}
use remote_virtio_gpu.Wire.{u32_at}
use remote_virtio_gpu.Device.{Capdata}

-- `sizeof(struct capset)`, CAPSET_MAX_SIZE and GPU_MAX_CAPDATA.
abbrev pub capset_hdr_size : ℕ
capset_hdr_size = 12

abbrev pub capset_max_size : ℕ
capset_max_size = 2048

abbrev pub gpu_max_capdata : ℕ
gpu_max_capdata = 16

-- What the header says, with the data behind it.
abbrev pub capdata_of : List ℕ → List ℕ → Capdata
capdata_of hdr bytes = record {
  id = u32_at hdr 0;
  version = u32_at hdr 4;
  size = u32_at hdr 8;
  bytes = bytes;
}

-- The loop, with this many slots left.
pub init_loop : ℕ → List ℕ → List Capdata
init_loop zero file = []
init_loop (suc slots) file =
    let hdr = take capset_hdr_size file in
    let behind = drop capset_hdr_size file in
    let size = u32_at hdr 8 in
    let bytes = take size behind in
    let rest = init_loop slots (drop size behind) in
    elim (length hdr != capset_hdr_size) [
      | true ↦ []
      | false ↦ elim (ltb capset_max_size size) [
        | true ↦ []
        | false ↦ elim (length bytes != size) [ true ↦ [] | false ↦ capdata_of hdr bytes ∷ rest ]
      ]
    ]

-- The capsets that are read; `ncapdata` and `config.num_capsets` are their number.
pub gpu_capset_init : List ℕ → List Capdata
gpu_capset_init file = init_loop gpu_max_capdata file
