-- ===== src/Sanity/Strict.antt =====
-- What the proxy lets pass, the renderer accepts.
use remote_virtio_gpu.Prelude.{ℕ, ◌≡◌, arith, true, false}
use remote_virtio_gpu.Virtio.{
  Body, get_display_info, resource_flush, ctx_attach_resource, ctx_detach_resource, Cmd, ok_nodata,
  Layout,
}
use remote_virtio_gpu.Sanity.{check_body, sanity_check_gpu_ctrl}

module _ (sz : Layout) where
  check_body-strict :
      (b : Body) (ctx size : ℕ)
      → check_body sz b ctx size true ≡ ok_nodata
      → check_body sz b ctx size false ≡ ok_nodata
  unfolding check_body
  check_body-strict get_display_info ctx size h = h
  check_body-strict (resource_flush id r) ctx size h = ground arith
  check_body-strict (ctx_attach_resource id) ctx size h = ground arith
  check_body-strict (ctx_detach_resource id) ctx size h = ground arith
  check_body-strict _ ctx size h = h

  -- A control command that the strict check of the proxy accepts is accepted by the check of the
  -- renderer, which therefore does not exit on it as insane.
  pub strict_then_lax :
      (cmd : Cmd) (size : ℕ)
      → sanity_check_gpu_ctrl sz cmd size true ≡ ok_nodata
      → sanity_check_gpu_ctrl sz cmd size false ≡ ok_nodata
  unfolding sanity_check_gpu_ctrl
  strict_then_lax cmd size h = ground (arith, check_body-strict cmd.body cmd.ctx_id size)
