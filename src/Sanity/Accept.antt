-- ===== src/Sanity/Accept.antt =====
-- Which control commands `sanity_check_gpu_ctrl` accepts, by an independent description.
use remote_virtio_gpu.Prelude.{
  ℕ, ◌*◌, ◌≤◌, ◌<◌, ◌≡◌, ◌↔◌, ◌⊎◌, arith, Bool, true, false, add64, mul64,
}
use remote_virtio_gpu.Resource.Format.{elem}
use remote_virtio_gpu.Virtio.{
  Transfer3d, Body, get_display_info, resource_create_2d, resource_unref, set_scanout,
  resource_flush, transfer_to_host_2d, resource_attach_backing, resource_detach_backing,
  get_capset_info, get_capset, ctx_create, ctx_destroy, ctx_attach_resource, ctx_detach_resource,
  resource_create_3d, transfer_to_host_3d, transfer_from_host_3d, submit_3d, update_cursor,
  move_cursor, unknown, Cmd, ok_nodata, Layout,
}
use remote_virtio_gpu.Sanity.{int32_max, check_body, sanity_check_gpu_ctrl}
use remote_virtio_gpu.Sanity.Bounds.{sanity_check_bounds_iff}

-- A rectangle whose pixels can be addressed.
abbrev pub Drawable : ℕ → ℕ → ℕ → ℕ → Type 0
Drawable x y width height =
    (x ≤ int32_max)
    × (y ≤ int32_max)
    × (0 < width)
    × (0 < height)
    × (4 * (height * width) ≤ int32_max)

abbrev DrawableBox : Transfer3d → Type 0
DrawableBox t =
    (t.box.z ≤ int32_max) × (t.box.d ≤ int32_max) × Drawable t.box.x t.box.y t.box.w t.box.h

-- What the member of a command has to be like, for the context, the size and the strictness.
abbrev pub SaneBody : Layout → Body → ℕ → ℕ → Bool → Type 0
SaneBody sz get_display_info ctx size strict = size ≡ sz.hdr
SaneBody sz (resource_create_2d c) ctx size strict =
    (size ≡ sz.r_c2d)
    × (0 < c.resource_id)
    × Drawable 0 0 c.width c.height
    × (elem c.format sz.formats ≡ true)
SaneBody sz (resource_unref id) ctx size strict = (size ≡ sz.r_unref) × (0 < id)
SaneBody sz (set_scanout scanout_id id r) ctx size strict =
    (size ≡ sz.s_set)
    × (scanout_id < sz.max_scanouts)
    × ((id ≡ 0) ⊎ Drawable r.x r.y r.width r.height)
SaneBody sz (resource_flush id r) ctx size strict =
    (size ≡ sz.r_flush) × ((strict ≡ false) ⊎ (0 < id)) × Drawable r.x r.y r.width r.height
SaneBody sz (transfer_to_host_2d id r offset) ctx size strict =
    (size ≡ sz.t_2h2d) × (0 < id) × Drawable r.x r.y r.width r.height
SaneBody sz (resource_attach_backing id n mem) ctx size strict =
    (sz.r_att < size) × (0 < id) × (size ≡ add64 sz.r_att (mul64 n sz.mem_entry))
SaneBody sz (resource_detach_backing id) ctx size strict = (size ≡ sz.r_det) × (0 < id)
SaneBody sz (get_capset_info index) ctx size strict = size ≡ sz.capset_info
SaneBody sz (get_capset id version) ctx size strict = size ≡ sz.capset
SaneBody sz (ctx_create nlen) ctx size strict =
    (size ≡ sz.c_create) × (0 < ctx) × (nlen ≤ sz.debug_name)
SaneBody sz ctx_destroy ctx size strict = (size ≡ sz.c_destroy) × (0 < ctx)
SaneBody sz (ctx_attach_resource id) ctx size strict =
    (size ≡ sz.c_res) × (0 < ctx) × ((strict ≡ false) ⊎ (0 < id))
SaneBody sz (ctx_detach_resource id) ctx size strict =
    (size ≡ sz.c_res) × (0 < ctx) × ((strict ≡ false) ⊎ (0 < id))
SaneBody sz (resource_create_3d c) ctx size strict =
    (size ≡ sz.r_c3d) × (0 < c.resource_id) × Drawable 0 0 c.width c.height
SaneBody sz (transfer_to_host_3d t) ctx size strict =
    (size ≡ sz.t_h3d) × (0 < ctx) × (0 < t.resource_id) × DrawableBox t
SaneBody sz (transfer_from_host_3d t) ctx size strict =
    (size ≡ sz.t_h3d) × (0 < ctx) × (0 < t.resource_id) × DrawableBox t
SaneBody sz (submit_3d n words) ctx size strict =
    (sz.c_submit < size) × (0 < ctx) × (size ≡ add64 n sz.c_submit)
SaneBody sz (update_cursor id scanout_id x y) ctx size strict = ⊥
SaneBody sz (move_cursor id scanout_id x y) ctx size strict = ⊥
SaneBody sz (unknown type) ctx size strict = ⊥

abbrev pub Sane : Layout → Cmd → ℕ → Bool → Type 0
Sane sz cmd size strict =
    (sz.hdr ≤ size) × (size ≤ sz.cmd) × SaneBody sz cmd.body cmd.ctx_id size strict

module _ (sz : Layout) where
  check_body-SaneBody :
      (b : Body) (ctx size : ℕ) (strict : Bool)
      → check_body sz b ctx size strict ≡ ok_nodata
      → SaneBody sz b ctx size strict
  unfolding check_body
  check_body-SaneBody get_display_info ctx size strict h = ground arith
  check_body-SaneBody (resource_create_2d c) ctx size strict h =
      ground (arith, sanity_check_bounds_iff 0 0 c.width c.height)
  check_body-SaneBody (set_scanout scanout_id id r) ctx size strict h =
      ground (arith, sanity_check_bounds_iff r.x r.y r.width r.height)
  check_body-SaneBody (resource_flush id r) ctx size strict h =
      ground (arith, sanity_check_bounds_iff r.x r.y r.width r.height)
  check_body-SaneBody (transfer_to_host_2d id r offset) ctx size strict h =
      ground (arith, sanity_check_bounds_iff r.x r.y r.width r.height)
  check_body-SaneBody (resource_create_3d c) ctx size strict h =
      ground (arith, sanity_check_bounds_iff 0 0 c.width c.height)
  check_body-SaneBody (transfer_to_host_3d t) ctx size strict h =
      ground (arith, sanity_check_bounds_iff t.box.x t.box.y t.box.w t.box.h)
  check_body-SaneBody (transfer_from_host_3d t) ctx size strict h =
      ground (arith, sanity_check_bounds_iff t.box.x t.box.y t.box.w t.box.h)
  check_body-SaneBody _ ctx size strict h = ground arith

  SaneBody-check_body :
      (b : Body) (ctx size : ℕ) (strict : Bool)
      → SaneBody sz b ctx size strict
      → check_body sz b ctx size strict ≡ ok_nodata
  unfolding check_body
  SaneBody-check_body get_display_info ctx size strict h = ground arith
  SaneBody-check_body (resource_create_2d c) ctx size strict h =
      ground (arith, sanity_check_bounds_iff 0 0 c.width c.height)
  SaneBody-check_body (set_scanout scanout_id id r) ctx size strict h =
      ground (arith, sanity_check_bounds_iff r.x r.y r.width r.height)
  SaneBody-check_body (resource_flush id r) ctx size strict h =
      ground (arith, sanity_check_bounds_iff r.x r.y r.width r.height)
  SaneBody-check_body (transfer_to_host_2d id r offset) ctx size strict h =
      ground (arith, sanity_check_bounds_iff r.x r.y r.width r.height)
  SaneBody-check_body (resource_create_3d c) ctx size strict h =
      ground (arith, sanity_check_bounds_iff 0 0 c.width c.height)
  SaneBody-check_body (transfer_to_host_3d t) ctx size strict h =
      ground (arith, sanity_check_bounds_iff t.box.x t.box.y t.box.w t.box.h)
  SaneBody-check_body (transfer_from_host_3d t) ctx size strict h =
      ground (arith, sanity_check_bounds_iff t.box.x t.box.y t.box.w t.box.h)
  SaneBody-check_body _ ctx size strict h = ground arith

  -- `sanity_check_gpu_ctrl` accepts exactly the commands that are described by `Sane`: the size is
  -- that of the command's structure, ids that have to be there are not 0, rectangles are drawable,
  -- and cursor commands and unknown ones are refused.
  pub sanity_check_gpu_ctrl-Sane :
      (cmd : Cmd) (size : ℕ) (strict : Bool)
      → (sanity_check_gpu_ctrl sz cmd size strict ≡ ok_nodata) ↔ Sane sz cmd size strict
  unfolding sanity_check_gpu_ctrl
  sanity_check_gpu_ctrl-Sane cmd size strict = (
    λ h. ground (arith, check_body-SaneBody cmd.body cmd.ctx_id size strict),
    λ h. ground (arith, SaneBody-check_body cmd.body cmd.ctx_id size strict),
  )
