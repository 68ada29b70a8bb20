-- ===== src/Virtio.antt =====
-- The commands of the virtual GPU and its answers, as linux/virtio_gpu.h lays them out, reduced to
-- the fields that the two programs read. `union virtio_gpu_cmd` of rvgpu-sanity.h is a tagged
-- union here: every reader first looks at `hdr.type`, and then at the member of that type only.
-- That header's sizes and limits, which are not part of the repository, are parameters.
use remote_virtio_gpu.Prelude.{ℕ, List}

-- `struct virtio_gpu_rect`
pub record Rect : Type 0 where
  pub x : ℕ
  pub y : ℕ
  pub width : ℕ
  pub height : ℕ

-- `struct virtio_gpu_box`
pub record Box : Type 0 where
  pub x : ℕ
  pub y : ℕ
  pub z : ℕ
  pub w : ℕ
  pub h : ℕ
  pub d : ℕ

-- `struct virtio_gpu_mem_entry`
pub record MemEntry : Type 0 where
  pub addr : ℕ
  pub length : ℕ

-- `struct virtio_gpu_resource_create_2d`
pub record Create2d : Type 0 where
  pub resource_id : ℕ
  pub format : ℕ
  pub width : ℕ
  pub height : ℕ

-- `struct virtio_gpu_resource_create_3d`
pub record Create3d : Type 0 where
  pub resource_id : ℕ
  pub target : ℕ
  pub format : ℕ
  pub bind : ℕ
  pub width : ℕ
  pub height : ℕ
  pub depth : ℕ
  pub array_size : ℕ
  pub last_level : ℕ
  pub nr_samples : ℕ
  pub flags : ℕ

-- `struct virtio_gpu_transfer_host_3d`
pub record Transfer3d : Type 0 where
  pub box : Box
  pub offset : ℕ
  pub resource_id : ℕ
  pub level : ℕ
  pub stride : ℕ
  pub layer_stride : ℕ

-- The member of the union that `hdr.type` selects.
pub data Body : Type 0 where
  get_display_info : Body
  resource_create_2d : Create2d → Body
  -- resource_id
  resource_unref : ℕ → Body
  -- scanout_id, resource_id, r
  set_scanout : ℕ → ℕ → Rect → Body
  -- resource_id, r
  resource_flush : ℕ → Rect → Body
  -- resource_id, r, offset
  transfer_to_host_2d : ℕ → Rect → ℕ → Body
  -- resource_id, nr_entries, and the entries behind them
  resource_attach_backing : ℕ → ℕ → List MemEntry → Body
  -- resource_id
  resource_detach_backing : ℕ → Body
  -- capset_index
  get_capset_info : ℕ → Body
  -- capset_id, capset_version
  get_capset : ℕ → ℕ → Body
  -- nlen
  ctx_create : ℕ → Body
  ctx_destroy : Body
  -- resource_id
  ctx_attach_resource : ℕ → Body
  ctx_detach_resource : ℕ → Body
  resource_create_3d : Create3d → Body
  transfer_to_host_3d : Transfer3d → Body
  transfer_from_host_3d : Transfer3d → Body
  -- size, and the words of the buffer
  submit_3d : ℕ → List ℕ → Body
  -- resource_id, pos.scanout_id, pos.x, pos.y
  update_cursor : ℕ → ℕ → ℕ → ℕ → Body
  move_cursor : ℕ → ℕ → ℕ → ℕ → Body
  -- any other `hdr.type`
  unknown : ℕ → Body

-- `union virtio_gpu_cmd`: the header's fields, and the member.
pub record Cmd : Type 0 where
  pub flags : ℕ
  pub fence_id : ℕ
  pub ctx_id : ℕ
  pub body : Body

-- The values of `enum virtio_gpu_ctrl_type` that are answers.
pub data Resp : Type 0 where
  ok_nodata ok_display_info ok_capset_info ok_capset : Resp
  err_unspec err_out_of_memory err_invalid_scanout_id err_invalid_resource_id : Resp
  err_invalid_context_id err_invalid_parameter err_device_reset : Resp

-- The sizes of the structures, by the names of the union's members, and the limits.
pub record Layout : Type 0 where
  pub hdr : ℕ
  pub cmd : ℕ
  pub r_unref : ℕ
  pub r_c2d : ℕ
  pub s_set : ℕ
  pub r_flush : ℕ
  pub t_2h2d : ℕ
  pub r_att : ℕ
  pub mem_entry : ℕ
  pub r_det : ℕ
  pub t_h3d : ℕ
  pub r_c3d : ℕ
  pub c_create : ℕ
  pub debug_name : ℕ
  pub c_destroy : ℕ
  pub c_res : ℕ
  pub c_submit : ℕ
  pub capset : ℕ
  pub capset_info : ℕ
  pub cursor : ℕ
  pub max_scanouts : ℕ
  -- The labels of the `switch` on `enum virtio_gpu_formats`.
  pub formats : List ℕ
