-- ===== src/Renderer/Dispatch/Returns.antt =====
-- The dispatching of commands always returns.
use remote_virtio_gpu.Prelude.{
  ℕ, suc, ◌/◌, ◌≤◌, ◌≡◌, ap, inl, inr, List, Bool, true, false, arith, Bool-cases, Option-cases,
  length, if◌then◌else◌,
}
use remote_virtio_gpu.Wire.{Header}
use remote_virtio_gpu.Virtio.{
  Rect, Transfer3d, MemEntry, Body, transfer_to_host_2d, transfer_to_host_3d, transfer_from_host_3d,
  resource_attach_backing, set_scanout, submit_3d, update_cursor, move_cursor, unknown, Cmd,
}
use remote_virtio_gpu.Renderer.Virgl.{force_ctx_0, Virgl, Setup, PrState}
use remote_virtio_gpu.Sanity.{sanity_check_resource_rect}
use remote_virtio_gpu.Renderer.Upload.{upload_resource}
use remote_virtio_gpu.Renderer.Dispatch.Loop.{
  fenced, switch_scanout, dispatch_body, dispatch_command, sane, performed, loading, no_draw,
}
use remote_virtio_gpu.Renderer.Dispatch
use remote_virtio_gpu.Renderer.Dispatch.{Ends, ends, exits, unfinished, ◌>>=◌}
use remote_virtio_gpu.Renderer.Dispatch.Within.{
  FitsWords, Within, Within->>=, Within-le, fenced-input, load_resource-Within, polled-input,
  submit_loads-Within,
}

module _ {V : Type 0} (vr : Virgl V) (env : Setup) where
  -- A result whose input is the one that it was called with.
  if-Within :
      {A : Type 0} (n : ℕ) (b : Bool) (x y : Ends V A)
      → Within n x
      → Within n y
      → Within n (if b then x else y)
  if-Within n true x y h k = h
  if-Within n false x y h k = k

  attach_backing-Within :
      (id nr : ℕ) (mem : List MemEntry) (s : PrState V)
      → Within (length s.input) (Dispatch.resource_attach_backing vr env id nr mem s)
  unfolding Dispatch.resource_attach_backing
  attach_backing-Within id nr mem s = ground arith

  upload-Within :
      (t : Transfer3d) (bpp stride : ℕ) (s : PrState V)
      → Within (length s.input) (Dispatch.upload vr env t bpp stride s)
  upload-Within t bpp stride s = elim (Option-cases (vr.detach_iov t.resource_id s.virgl).0) [
    | inl e ↦ unfold Dispatch.upload in rw (e, Dispatch.upload) tt
    | inr (m, e) ↦ unfold Dispatch.upload upload_resource in rw (e, Dispatch.upload) (omega arith)
  ]

  set_scanout-Within :
      (scanout_id id : ℕ) (r : Rect) (s : PrState V)
      → Within (length s.input) (Dispatch.set_scanout vr env scanout_id id r s)
  set_scanout-Within scanout_id id r s = elim (Option-cases (Dispatch.info_of vr env id s.virgl)) [
    | inl e ↦
        unfold Dispatch.set_scanout Dispatch.clear_scanout in
        rw (e, Dispatch.set_scanout) (omega arith)
    | inr (info, e) ↦
        unfold Dispatch.set_scanout in
        rw (e, Dispatch.set_scanout)
          (if-Within (length s.input) (sanity_check_resource_rect r info.width info.height) _ _
            (omega arith) tt)
  ]

  switch_scanout-Within :
      (scanout_id id : ℕ) (r : Rect) (s : PrState V)
      → Within (length s.input) (switch_scanout vr env scanout_id id r s)
  unfolding switch_scanout
  switch_scanout-Within scanout_id id r s = elim (Bool-cases (env.scanouts scanout_id).enabled) [
    | inr e ↦ rw e (omega arith)
    | inl e ↦ rw e (
        Within->>= {B = ℕ} (length s.input) (Dispatch.set_scanout vr env scanout_id id r s)
          (λ _ s'. ends 0 (record s' { current_scanout_id = scanout_id }))
          (set_scanout-Within scanout_id id r s) (λ _ s' h. h))
  ]

  update_cursor-input :
      (id : ℕ) (s : PrState V) → (Dispatch.rvgpu_serve_update_cursor vr env id s).input ≡ s.input
  unfolding Dispatch.rvgpu_serve_update_cursor
  update_cursor-input id s = ground arith

  move_cursor-input :
      (x y : ℕ) (s : PrState V) → (Dispatch.rvgpu_serve_move_cursor vr env x y s).input ≡ s.input
  unfolding Dispatch.rvgpu_serve_move_cursor
  move_cursor-input x y s = ground arith

  submit_3d-Within :
      (ctx size : ℕ) (words : List ℕ) (s : PrState V)
      → FitsWords env (submit_3d size words)
      → Within (length s.input) (Dispatch.rvgpu_handle_submit_3d vr env ctx size words s)
  unfolding Dispatch.rvgpu_handle_submit_3d
  submit_3d-Within ctx size words s (w, z) =
      Within->>= (length s.input) (Dispatch.submit_loads vr env words size (suc (size / 4)) 0 s) _
        (submit_loads-Within vr env words size (suc (size / 4)) 0 0 (length s.input) s w z
          (omega arith) (omega arith) (omega arith) (omega arith))
        (λ _ s' h. h)

  loading-Within :
      (m : Ends V Bool) (n : ℕ) (next : PrState V → Ends V ℕ)
      → Within n m
      → ((s : PrState V) → length s.input ≤ n → Within n (next s))
      → Within n (loading vr env m next)
  loading-Within m n next h k =
      Within->>= n m (λ loaded s. if loaded then next s else ends 0 s) h
        (λ b s l. if-Within n b (next s) (ends 0 s) (k s l) l)

  no_draw-Within : (n : ℕ) (m : Ends V Dispatch.Nothing) → Within n m → Within n (no_draw vr env m)
  no_draw-Within n m h = Within->>= {B = ℕ} n m (λ _ s. ends 0 s) h (λ _ s l. l)

  dispatch_body-Within :
      (b : Body) (ctx : ℕ) (uhdr : Header) (s : PrState V)
      → FitsWords env b
      → Within (length s.input) (dispatch_body vr env b ctx uhdr s)
  unfolding dispatch_body Dispatch.free_backing
  dispatch_body-Within (submit_3d size words) ctx uhdr s f =
      no_draw-Within (length s.input) (Dispatch.rvgpu_handle_submit_3d vr env ctx size words s)
        (submit_3d-Within ctx size words s f)
  dispatch_body-Within (transfer_to_host_2d id r offset) ctx uhdr s f =
      loading-Within (Dispatch.load_resource vr env id s) (length s.input) _
        (load_resource-Within vr env id s)
        (λ s' h.
          if-Within {A = ℕ} (length s.input) (Dispatch.check_rect vr env id r s'.virgl) _ exits h
            tt)
  dispatch_body-Within (transfer_to_host_3d t) ctx uhdr s f =
      loading-Within (Dispatch.load_resource vr env t.resource_id s) (length s.input) _
        (load_resource-Within vr env t.resource_id s)
        (λ s' h.
          if-Within {A = ℕ} (length s.input)
            (Dispatch.check_box vr env t.resource_id t.box s'.virgl) _ exits h tt)
  dispatch_body-Within (transfer_from_host_3d t) ctx uhdr s f =
      if-Within (length s.input) (Dispatch.check_box vr env t.resource_id t.box s.virgl) _ exits
        (no_draw-Within (length s.input) _ (upload-Within t uhdr.bpp uhdr.stride _)) tt
  dispatch_body-Within (resource_attach_backing id nr mem) ctx uhdr s f =
      no_draw-Within (length s.input) (Dispatch.resource_attach_backing vr env id nr mem s)
        (attach_backing-Within id nr mem s)
  dispatch_body-Within (set_scanout scanout_id id r) ctx uhdr s f =
      switch_scanout-Within scanout_id id r s
  dispatch_body-Within (update_cursor id scanout_id x y) ctx uhdr s f =
      omega (arith, ap length (update_cursor-input id s))
  dispatch_body-Within (move_cursor id scanout_id x y) ctx uhdr s f =
      omega (arith, ap length (move_cursor-input x y s))
  dispatch_body-Within (unknown type) ctx uhdr s f = tt
  dispatch_body-Within _ ctx uhdr s f = omega arith

  pub dispatch_command-Within :
      (cmd : Cmd) (uhdr : Header) (s : PrState V)
      → FitsWords env cmd.body
      → Within (length s.input) (dispatch_command vr env cmd uhdr s)
  dispatch_command-Within cmd uhdr s f = elim (Bool-cases (sane vr env cmd uhdr)) [
    | inr insane ↦ unfold dispatch_command in rw (insane, dispatch_command) tt
    | inl ok ↦
        let s1 = Dispatch.polled vr env (performed vr env force_ctx_0 s) in
        let e : s1.input ≡ s.input = polled-input vr env (performed vr env force_ctx_0 s) in
        unfold dispatch_command in
        rw (ok, dispatch_command)
          (Within->>= (length s.input) (dispatch_body vr env cmd.body cmd.ctx_id uhdr s1)
            (λ draw s'. ends draw (fenced vr env cmd s'))
            (Within-le (length s1.input) (length s.input)
              (dispatch_body vr env cmd.body cmd.ctx_id uhdr s1) (omega (arith, ap length e))
              (dispatch_body-Within cmd.body cmd.ctx_id uhdr s1 f))
            (λ draw s' h. omega (arith, ap length (fenced-input vr env cmd s'))))
  ]
