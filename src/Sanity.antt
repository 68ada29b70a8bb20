-- ===== src/Sanity.antt =====
-- rvgpu-sanity.c: the checks that the proxy (strictly) and the renderer make of every command.
pub mod Bounds
pub mod Accept
pub mod Strict
pub mod Tests
use remote_virtio_gpu.Prelude.{
  ℕ, ◌+◌, ◌-◌, ◌^◌, List, Bool, true, false, not, ◌&&◌, ◌||◌, ltb, leb, ◌==◌, ◌!=◌, if◌then◌else◌,
  add64, mul64,
}
use remote_virtio_gpu.Resource.Format.{elem}
use remote_virtio_gpu.Virtio.{
  Rect, Box, Create2d, Create3d, Transfer3d, Body, get_display_info, resource_create_2d,
  resource_unref, set_scanout, resource_flush, transfer_to_host_2d, resource_attach_backing,
  resource_detach_backing, get_capset_info, get_capset, ctx_create, ctx_destroy,
  ctx_attach_resource, ctx_detach_resource, resource_create_3d, transfer_to_host_3d,
  transfer_from_host_3d, submit_3d, update_cursor, move_cursor, unknown, Cmd, Resp, ok_nodata,
  err_unspec, err_out_of_memory, err_invalid_scanout_id, err_invalid_resource_id,
  err_invalid_context_id, err_invalid_parameter, Layout,
}

-- INT32_MAX
abbrev pub int32_max : ℕ
int32_max = 2 ^ 31 - 1

unfoldable pub sanity_check_bounds : ℕ → ℕ → ℕ → ℕ → Bool
sanity_check_bounds x y width height =
    if ltb int32_max x || ltb int32_max y
    then false
    else if width == 0 || ltb int32_max width
    then false
    else if height == 0 || ltb int32_max height
    then false
    else if ltb int32_max (mul64 (mul64 height width) 4)
    then false
    else true

abbrev pub sanity_check_rect : Rect → Bool
sanity_check_rect r = sanity_check_bounds r.x r.y r.width r.height

abbrev pub sanity_check_box : Box → Bool
sanity_check_box b =
    if ltb int32_max b.z || ltb int32_max b.d then false else sanity_check_bounds b.x b.y b.w b.h

unfoldable pub sanity_check_resource_rect : Rect → ℕ → ℕ → Bool
sanity_check_resource_rect r width height =
    if ltb width (add64 r.x r.width)
    then false
    else if ltb height (add64 r.y r.height)
    then false
    else true

unfoldable pub sanity_check_resource_box : Box → ℕ → ℕ → ℕ → Bool
sanity_check_resource_box b width height depth =
    if ltb width (add64 b.x b.w) then false else if ltb height (add64 b.y b.h) then false else true

module _ (sz : Layout) where
  -- The `switch` of `sanity_check_gpu_ctrl`: member, `hdr.ctx_id`, size, `strict`.
  unfoldable pub check_body : Body → ℕ → ℕ → Bool → Resp
  check_body get_display_info ctx size strict =
      if size != sz.hdr then err_invalid_parameter else ok_nodata
  check_body (resource_create_2d c) ctx size strict =
      if size != sz.r_c2d
      then err_invalid_parameter
      else if c.resource_id == 0
      then err_invalid_resource_id
      else if not (sanity_check_bounds 0 0 c.width c.height)
      then err_invalid_parameter
      else if elem c.format sz.formats
      then ok_nodata
      else err_invalid_parameter
  check_body (resource_unref id) ctx size strict =
      if size != sz.r_unref
      then err_invalid_parameter
      else if id == 0
      then err_invalid_resource_id
      else ok_nodata
  check_body (set_scanout scanout_id id r) ctx size strict =
      if size != sz.s_set
      then err_invalid_parameter
      else if leb sz.max_scanouts scanout_id
      then err_invalid_scanout_id
      else if id != 0 && not (sanity_check_rect r)
      then err_invalid_parameter
      else ok_nodata
  check_body (resource_flush id r) ctx size strict =
      if size != sz.r_flush
      then err_invalid_parameter
      else if strict && id == 0
      then err_invalid_resource_id
      else if not (sanity_check_rect r)
      then err_invalid_parameter
      else ok_nodata
  check_body (transfer_to_host_2d id r offset) ctx size strict =
      if size != sz.t_2h2d
      then err_invalid_parameter
      else if id == 0
      then err_invalid_resource_id
      else if not (sanity_check_rect r)
      then err_invalid_parameter
      else ok_nodata
  check_body (resource_attach_backing id n mem) ctx size strict =
      if leb size sz.r_att
      then err_invalid_parameter
      else if id == 0
      then err_invalid_resource_id
      else if size != add64 sz.r_att (mul64 n sz.mem_entry)
      then err_invalid_parameter
      else ok_nodata
  check_body (resource_detach_backing id) ctx size strict =
      if size != sz.r_det
      then err_invalid_parameter
      else if id == 0
      then err_invalid_resource_id
      else ok_nodata
  check_body (get_capset_info index) ctx size strict =
      if size != sz.capset_info then err_invalid_parameter else ok_nodata
  check_body (get_capset id version) ctx size strict =
      if size != sz.capset then err_invalid_parameter else ok_nodata
  check_body (ctx_create nlen) ctx size strict =
      if size != sz.c_create
      then err_invalid_parameter
      else if ctx == 0
      then err_invalid_context_id
      else if ltb sz.debug_name nlen
      then err_invalid_parameter
      else ok_nodata
  check_body ctx_destroy ctx size strict =
      if size != sz.c_destroy
      then err_invalid_parameter
      else if ctx == 0
      then err_invalid_context_id
      else ok_nodata
  check_body (ctx_attach_resource id) ctx size strict =
      if size != sz.c_res
      then err_invalid_parameter
      else if ctx == 0
      then err_invalid_context_id
      else if strict && id == 0
      then err_invalid_resource_id
      else ok_nodata
  check_body (ctx_detach_resource id) ctx size strict =
      if size != sz.c_res
      then err_invalid_parameter
      else if ctx == 0
      then err_invalid_context_id
      else if strict && id == 0
      then err_invalid_resource_id
      else ok_nodata
  check_body (resource_create_3d c) ctx size strict =
      if size != sz.r_c3d
      then err_invalid_parameter
      else if c.resource_id == 0
      then err_invalid_resource_id
      else if not (sanity_check_bounds 0 0 c.width c.height)
      then err_invalid_parameter
      else ok_nodata
  check_body (transfer_to_host_3d t) ctx size strict =
      if size != sz.t_h3d
      then err_invalid_parameter
      else if ctx == 0
      then err_invalid_context_id
      else if t.resource_id == 0
      then err_invalid_resource_id
      else if not (sanity_check_box t.box)
      then err_invalid_parameter
      else ok_nodata
  check_body (transfer_from_host_3d t) ctx size strict =
      if size != sz.t_h3d
      then err_invalid_parameter
      else if ctx == 0
      then err_invalid_context_id
      else if t.resource_id == 0
      then err_invalid_resource_id
      else if not (sanity_check_box t.box)
      then err_invalid_parameter
      else ok_nodata
  check_body (submit_3d n words) ctx size strict =
      if leb size sz.c_submit
      then err_invalid_parameter
      else if ctx == 0
      then err_invalid_context_id
      else if size != add64 n sz.c_submit
      then err_invalid_parameter
      else ok_nodata
  check_body (update_cursor id scanout_id x y) ctx size strict = err_unspec
  check_body (move_cursor id scanout_id x y) ctx size strict = err_unspec
  check_body (unknown type) ctx size strict = err_unspec

  unfoldable pub sanity_check_gpu_ctrl : Cmd → ℕ → Bool → Resp
  sanity_check_gpu_ctrl cmd size strict =
      if ltb size sz.hdr
      then err_invalid_parameter
      else if ltb sz.cmd size
      then err_out_of_memory
      else check_body cmd.body cmd.ctx_id size strict

  -- The `switch` of `sanity_check_gpu_cursor`.
  unfoldable pub check_cursor : Body → Resp
  check_cursor (update_cursor id scanout_id x y) =
      if id == 0
      then err_invalid_resource_id
      else if leb sz.max_scanouts scanout_id
      then err_invalid_scanout_id
      else ok_nodata
  check_cursor (move_cursor id scanout_id x y) =
      if leb sz.max_scanouts scanout_id then err_invalid_scanout_id else ok_nodata
  check_cursor body = err_unspec

  unfoldable pub sanity_check_gpu_cursor : Cmd → ℕ → Bool → Resp
  sanity_check_gpu_cursor cmd size strict =
      if size != sz.cursor then err_invalid_parameter else check_cursor cmd.body
