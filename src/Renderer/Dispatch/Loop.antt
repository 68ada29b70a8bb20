-- ===== src/Renderer/Dispatch/Loop.antt =====
-- rvgpu-virgl.c: the `switch` of `rvgpu_pr_dispatch` and its loop. The dump of the capsets before
-- the first command and the measuring of times are left out.
use remote_virtio_gpu.Prelude.{
  ℕ, zero, suc, ◌%◌, [], Bool, true, false, length, ltb, ◌==◌, if◌then◌else◌, u32_mod, has_bit,
}
use remote_virtio_gpu.Wire.{Header}
use remote_virtio_gpu.Virtio.{
  Rect, Create2d, Create3d, Transfer3d, Body, get_display_info, resource_create_2d, resource_unref,
  set_scanout, resource_flush, transfer_to_host_2d, resource_attach_backing,
  resource_detach_backing, get_capset_info, get_capset, ctx_create, ctx_destroy,
  ctx_attach_resource, ctx_detach_resource, resource_create_3d, transfer_to_host_3d,
  transfer_from_host_3d, submit_3d, update_cursor, move_cursor, unknown, Cmd,
}
use remote_virtio_gpu.Sanity.{sanity_check_gpu_ctrl, sanity_check_gpu_cursor}
use remote_virtio_gpu.Device.Fences.{flag_fence}
use remote_virtio_gpu.Device.Requests.{is_ok_nodata}
use remote_virtio_gpu.Renderer.Frame.{frame, finished, too_long, too_short, read_frame}
use remote_virtio_gpu.Renderer.Virgl.{
  CreateArgs, TransferArgs, Call, force_ctx_0, context_create, context_destroy, resource_create,
  submit_cmd, transfer_write_iov, transfer_read_iov, attach_resource, detach_resource, Virgl, Setup,
  PrState,
}
use remote_virtio_gpu.Renderer.Virgl as Virglrenderer
use remote_virtio_gpu.Renderer.Dispatch
use remote_virtio_gpu.Renderer.Dispatch.{Ends, ends, exits, unfinished, ◌>>=◌, Nothing}

abbrev pub args_2d : Create2d → CreateArgs
args_2d c = record {
  handle = c.resource_id;
  target = 2;
  format = c.format;
  bind = 2;
  width = c.width;
  height = c.height;
  depth = 1;
  array_size = 1;
  last_level = 0;
  nr_samples = 0;
  flags = 1;
}

abbrev pub args_3d : Create3d → CreateArgs
args_3d c = record {
  handle = c.resource_id;
  target = c.target;
  format = c.format;
  bind = c.bind;
  width = c.width;
  height = c.height;
  depth = c.depth;
  array_size = c.array_size;
  last_level = c.last_level;
  nr_samples = c.nr_samples;
  flags = c.flags;
}

abbrev pub rect_args : ℕ → Rect → ℕ → TransferArgs
rect_args id r offset = record {
  handle = id;
  ctx_id = 0;
  level = 0;
  stride = 0;
  layer_stride = 0;
  box = record { x = r.x; y = r.y; z = 0; w = r.width; h = r.height; d = 1 };
  offset = offset;
}

abbrev pub box_args : ℕ → Transfer3d → TransferArgs
box_args ctx_id t = record {
  handle = t.resource_id;
  ctx_id = ctx_id;
  level = t.level;
  stride = t.stride;
  layer_stride = t.layer_stride;
  box = t.box;
  offset = t.offset;
}

-- RVGPU_CURSOR, as a bit.
abbrev pub cursor_bit : ℕ
cursor_bit = 4

module _ {V : Type 0} (vr : Virgl V) (env : Setup) where
  abbrev pub performed : Call → PrState V → PrState V
  performed c s = record s { virgl = vr.perform c s.virgl }

  -- Behind `load_resource`: its answer decides whether the part that follows is run.
  abbrev pub loading : Ends V Bool → (PrState V → Ends V ℕ) → Ends V ℕ
  loading m next = m >>= λ loaded s. if loaded then next s else ends 0 s

  -- A call behind which nothing is drawn.
  abbrev pub no_draw : Ends V Nothing → Ends V ℕ
  no_draw m = m >>= λ _ s. ends 0 s

  unfoldable pub switch_scanout : ℕ → ℕ → Rect → PrState V → Ends V ℕ
  switch_scanout scanout_id id r s =
      if (env.scanouts scanout_id).enabled
      then (Dispatch.set_scanout vr env scanout_id id r s >>= λ _ s'.
          ends 0 (record s' { current_scanout_id = scanout_id }))
      else ends 0 s

  -- The `switch`; the answer is `draw`.
  unfoldable pub dispatch_body : Body → ℕ → Header → PrState V → Ends V ℕ
  dispatch_body (ctx_create nlen) ctx uhdr s = ends 0 (performed (context_create ctx nlen) s)
  dispatch_body ctx_destroy ctx uhdr s = ends 0 (performed (context_destroy ctx) s)
  dispatch_body (resource_create_2d c) ctx uhdr s =
      ends 0 (performed (resource_create (args_2d c)) s)
  dispatch_body (resource_create_3d c) ctx uhdr s =
      ends 0 (performed (resource_create (args_3d c)) s)
  dispatch_body (submit_3d size words) ctx uhdr s =
      no_draw (Dispatch.rvgpu_handle_submit_3d vr env ctx size words s)
  dispatch_body (transfer_to_host_2d id r offset) ctx uhdr s =
      loading (Dispatch.load_resource vr env id s) λ s'.
        if Dispatch.check_rect vr env id r s'.virgl
        then ends 0 (performed (transfer_write_iov (rect_args id r offset)) s')
        else exits
  dispatch_body (transfer_to_host_3d t) ctx uhdr s =
      loading (Dispatch.load_resource vr env t.resource_id s) λ s'.
        if Dispatch.check_box vr env t.resource_id t.box s'.virgl
        then ends 0 (performed (transfer_write_iov (box_args ctx t)) s')
        else exits
  dispatch_body (transfer_from_host_3d t) ctx uhdr s =
      if Dispatch.check_box vr env t.resource_id t.box s.virgl
      then no_draw (
          Dispatch.upload vr env t uhdr.bpp uhdr.stride
            (performed (transfer_read_iov (box_args ctx t)) s))
      else exits
  dispatch_body (resource_attach_backing id nr_entries entries) ctx uhdr s =
      no_draw (Dispatch.resource_attach_backing vr env id nr_entries entries s)
  dispatch_body (resource_detach_backing id) ctx uhdr s = ends 0 (Dispatch.free_backing vr env id s)
  dispatch_body (set_scanout scanout_id id r) ctx uhdr s = switch_scanout scanout_id id r s
  dispatch_body (resource_flush id r) ctx uhdr s = ends id s
  dispatch_body (resource_unref id) ctx uhdr s =
      ends 0 (performed (Virglrenderer.resource_unref id) (Dispatch.free_backing vr env id s))
  dispatch_body (ctx_attach_resource id) ctx uhdr s = ends 0 (performed (attach_resource ctx id) s)
  dispatch_body (ctx_detach_resource id) ctx uhdr s = ends 0 (performed (detach_resource ctx id) s)
  dispatch_body (get_capset id version) ctx uhdr s = ends 0 s
  dispatch_body (get_capset_info index) ctx uhdr s = ends 0 s
  dispatch_body get_display_info ctx uhdr s = ends 0 s
  dispatch_body (update_cursor id scanout_id x y) ctx uhdr s =
      ends 0 (Dispatch.rvgpu_serve_update_cursor vr env id s)
  dispatch_body (move_cursor id scanout_id x y) ctx uhdr s =
      ends 0 (Dispatch.rvgpu_serve_move_cursor vr env x y s)
  -- No check lets an unknown command through, so the `default` of the `switch` is not reached.
  dispatch_body (unknown type) ctx uhdr s = exits

  -- The fence behind a command; `with_fence` holds its state once `create_fence` was called.
  unfoldable pub with_fence : Cmd → PrState V → PrState V
  with_fence cmd s = record s {
    virgl = (vr.create_fence cmd.fence_id (env.hdr_type cmd.body) s.virgl).1;
  }

  abbrev pub latest : Cmd → PrState V → ℕ
  latest cmd s =
      if ltb s.fence_received cmd.fence_id then cmd.fence_id % u32_mod else s.fence_received

  unfoldable pub fenced : Cmd → PrState V → PrState V
  unfolding with_fence
  fenced cmd s =
      if has_bit cmd.flags flag_fence
      then if (vr.create_fence cmd.fence_id (env.hdr_type cmd.body) s.virgl).0
        then Dispatch.polled vr env (record (with_fence cmd s) { fence_received = latest cmd s })
        else with_fence cmd s
      else s

  abbrev pub sane : Cmd → Header → Bool
  sane cmd uhdr = is_ok_nodata (
      if has_bit uhdr.flags cursor_bit
      then sanity_check_gpu_cursor env.layout cmd uhdr.size false
      else sanity_check_gpu_ctrl env.layout cmd uhdr.size false)

  -- A command that was read: the checks, the `switch`, and the fence.
  unfoldable pub dispatch_command : Cmd → Header → PrState V → Ends V ℕ
  dispatch_command cmd uhdr s =
      if sane cmd uhdr
      then (dispatch_body cmd.body cmd.ctx_id uhdr
            (Dispatch.polled vr env (performed force_ctx_0 s))
          >>= λ draw s'. ends draw (fenced cmd s'))
      else exits

  -- The loop: it is left with a resource to draw, or with 0 at the end of the input. On fuel for
  -- each byte of the input and one more.
  unfoldable pub dispatch_loop : ℕ → PrState V → Ends V ℕ
  dispatch_loop zero s = unfinished
  dispatch_loop (suc fuel) s = elim (read_frame env.layout.cmd s.input) [
    | finished ↦ ends 0 (record s { input = [] })
    | too_long ↦ exits
    | too_short ↦ exits
    | frame uhdr bytes rest ↦
        dispatch_command (env.command_of bytes) uhdr (record s { input = rest }) >>= λ draw s'.
        elim (draw == 0) [ true ↦ dispatch_loop fuel s' | false ↦ ends draw s' ]
  ]

  unfoldable pub rvgpu_pr_dispatch : PrState V → Ends V ℕ
  unfolding dispatch_loop
  rvgpu_pr_dispatch s =
      dispatch_loop (suc (length s.input)) (record s { has_submit_3d_draw = false })
