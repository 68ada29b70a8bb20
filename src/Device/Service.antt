-- ===== src/Device/Service.antt =====
-- rvgpu-gpu-device.c: the service of a command of the control queue and of the cursor queue, in the
-- build without VSYNC_ENABLE. A request is the number under which it is answered, the size and the
-- bytes of its buffers, and the command that they hold.
use remote_virtio_gpu.Prelude.{
  ℕ, ◌+◌, ◌/◌, ◌^◌, List, [], ◌∷◌, Option, none, some, ◌&&◌, ◌==◌, ◌!=◌, if◌then◌else◌, get_elem?,
  take, mul32,
}
use remote_virtio_gpu.Virtio.{
  Rect, Create2d, Create3d, Transfer3d, Body, get_display_info, resource_create_2d,
  resource_create_3d, resource_unref, set_scanout, submit_3d, transfer_to_host_2d,
  transfer_to_host_3d, resource_attach_backing, resource_detach_backing, get_capset_info,
  get_capset, Resp, ok_nodata, ok_display_info, ok_capset_info, ok_capset, err_invalid_parameter,
}
use remote_virtio_gpu.Resource.Format.{get_format_bpp}
use remote_virtio_gpu.Resource.Transfer.{ResInfo, ResTransfer}
use remote_virtio_gpu.Resource.Table.{res_find}
use remote_virtio_gpu.Device.{Capdata, Device}
use remote_virtio_gpu.Device.Backing.{
  gpu_device_create_res, gpu_device_destroy_res, gpu_device_attach, gpu_device_detach,
}
use remote_virtio_gpu.Device.Submit.{
  Env, gpu_device_send_res, gpu_device_handle_submit_3d, Run, result, aborted, unfinished,
}

-- What an answer carries behind its header.
pub data Payload : Type 0 where
  nothing displays : Payload
  -- capset_id, capset_max_version, capset_max_size
  capset_info : ℕ → ℕ → ℕ → Payload
  capset_data : List ℕ → Payload

-- What a command does: the answer's type, length and payload, what is sent, and the device.
pub record Effect : Type 0 where
  pub type : Resp
  pub resp_len : ℕ
  pub payload : Payload
  pub sent : List ℕ
  pub device : Device

pub gpu_device_capset_info : Device → ℕ → Resp × Payload
gpu_device_capset_info g index = elim (get_elem? g.capdata index) [
  | none ↦ (err_invalid_parameter, nothing)
  | some c ↦ (ok_capset_info, capset_info c.id c.version c.size)
]

pub capset_loop : Env → List Capdata → ℕ → ℕ → Resp × ℕ × Payload
capset_loop env [] capset_id capset_version = (err_invalid_parameter, env.layout.hdr, nothing)
capset_loop env (cd ∷ cds) capset_id capset_version =
    if cd.id == capset_id && cd.version == capset_version
    then (ok_capset, env.c_size + cd.size, capset_data (take cd.size cd.bytes))
    else capset_loop env cds capset_id capset_version

pub gpu_device_capset : Env → Device → ℕ → ℕ → Resp × ℕ × Payload
gpu_device_capset env g capset_id capset_version =
    capset_loop env g.capdata capset_id capset_version

-- `bpp` and `stride` of the resource; `none` is the null pointer of a resource that is not there. The
-- shift of the width by a level of 32 or more, which C leaves undefined, is a division here.
pub get_meta_res_from_cmd : Device → Transfer3d → Option (ℕ × ℕ)
get_meta_res_from_cmd g t = elim (res_find t.resource_id g.reslist) [
  | none ↦ none
  | some res ↦
      let bpp = get_format_bpp res.info.format in
      some (bpp, if t.stride != 0 then t.stride else mul32 bpp (res.info.width / 2 ^ t.level))
]

abbrev pub info_2d : Create2d → ResInfo
info_2d c = record {
  target = 2;
  format = c.format;
  width = c.width;
  height = c.height;
  depth = 1;
  array_size = 1;
  last_level = 0;
  flags = 1;
  bpp = 0;
}

abbrev pub info_3d : Create3d → ResInfo
info_3d c = record {
  target = c.target;
  format = c.format;
  width = c.width;
  height = c.height;
  depth = c.depth;
  array_size = c.array_size;
  last_level = c.last_level;
  flags = c.flags;
  bpp = 0;
}

abbrev pub transfer_2d : Rect → ℕ → ResTransfer
transfer_2d r offset = record {
  x = r.x;
  y = r.y;
  z = 0;
  w = r.width;
  h = r.height;
  d = 1;
  level = 0;
  stride = 0;
  layer_stride = 0;
  offset = offset;
}

-- The command's `layer_stride` is not passed on.
abbrev pub transfer_3d : Transfer3d → ResTransfer
transfer_3d t = record {
  x = t.box.x;
  y = t.box.y;
  z = t.box.z;
  w = t.box.w;
  h = t.box.h;
  d = t.box.d;
  level = t.level;
  stride = t.stride;
  layer_stride = 0;
  offset = t.offset;
}

module _ (env : Env) where
  -- The answer's header alone, of a call that gives its type and the device.
  abbrev pub answer : Resp × Device → Effect
  answer (type, g) = record {
    type = type;
    resp_len = env.layout.hdr;
    payload = nothing;
    sent = [];
    device = g;
  }

  abbrev pub sending : Device → Option (Resp × List ℕ) → Run Effect
  sending g none = aborted
  sending g (some (type, out)) = result (record (answer (type, g)) { sent = out })

  abbrev pub submitted : Device → Run (Resp × List ℕ) → Run Effect
  submitted g (result (type, out)) = result (record (answer (type, g)) { sent = out })
  submitted g aborted = aborted
  submitted g unfinished = unfinished

  -- The `switch` of `gpu_device_serve_ctrl` on a command that the checks accept.
  unfoldable pub serve_body : Device → Body → Run Effect
  serve_body g get_display_info =
      result (record (answer (ok_display_info, g)) { resp_len = env.rdi_size; payload = displays })
  serve_body g (resource_create_2d c) =
      result (answer (gpu_device_create_res env.memory g c.resource_id (info_2d c)))
  serve_body g (resource_create_3d c) =
      result (answer (gpu_device_create_res env.memory g c.resource_id (info_3d c)))
  serve_body g (resource_unref id) = result (answer (gpu_device_destroy_res g id))
  serve_body g (set_scanout scanout_id id r) =
      let g' = if scanout_id == 0 then record g { scanres = id } else g in
      result (answer (ok_nodata, record g' { scan_id = scanout_id }))
  serve_body g (submit_3d size words) =
      submitted g (gpu_device_handle_submit_3d env g size words ok_nodata)
  serve_body g (transfer_to_host_2d id r offset) =
      sending g (gpu_device_send_res env g id (transfer_2d r offset))
  serve_body g (transfer_to_host_3d t) =
      sending g (gpu_device_send_res env g t.resource_id (transfer_3d t))
  serve_body g (resource_attach_backing id nr_entries mem) =
      result (answer (gpu_device_attach env.map_guest env.memory g id mem nr_entries))
  serve_body g (resource_detach_backing id) = result (answer (gpu_device_detach g id))
  serve_body g (get_capset_info index) =
      let (type, payload) = gpu_device_capset_info g index in
      result (record (answer (type, g)) { resp_len = env.ci_size; payload = payload })
  serve_body g (get_capset id version) =
      let (type, len, payload) = gpu_device_capset env g id version in
      result (record (answer (type, g)) { resp_len = len; payload = payload })
  serve_body g _ = result (answer (ok_nodata, g))
