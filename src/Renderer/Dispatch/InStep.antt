-- ===== src/Renderer/Dispatch/InStep.antt =====
-- The renderer keeps in step with the proxy: what the proxy sends for a transfer is what the renderer
-- takes from its input for it.
use remote_virtio_gpu.Prelude.{
  ℕ, suc, ◌%◌, ◌≤◌, ◌<◌, ◌-◌, ◌≡◌, refl, ap, ◌∙◌, inl, inr, List, [], ◌∷◌, ◌++◌, Option, none, some,
  true, ◌&&◌, not, if◌then◌else◌, false, arith, length, overwrite, Bool-cases, has_bit,
  append_assoc, append-nil, u32_mod,
}
use remote_virtio_gpu.Memory.{Iovec, total}
use remote_virtio_gpu.Wire.{Header}
use remote_virtio_gpu.Virtio.{ok_nodata}
use remote_virtio_gpu.Sanity.{sanity_check_gpu_ctrl}
use remote_virtio_gpu.Sanity.Strict.{strict_then_lax}
use remote_virtio_gpu.Resource.Transfer.{Res, ResTransfer, rvgpu_ctx_transfer_to_host}
use remote_virtio_gpu.Resource.Transfer.Sync.{sent_part, transfer_to_host_synced}
use remote_virtio_gpu.Resource.Table.{res_find}
use remote_virtio_gpu.Device.{Device}
use remote_virtio_gpu.Device.Fences.{flag_fence, add_resp}
use remote_virtio_gpu.Device.Submit.{Env, result, gpu_device_send_res}
use remote_virtio_gpu.Device.Service.{Effect, answer, serve_body}
use remote_virtio_gpu.Device.Requests.{
  Incoming, Sent, to_all, ResetState, Served, is_ok_nodata, meta, prepared, forward, finish,
  accepted_hdr, enqueued, conclude, serve_request,
}
use remote_virtio_gpu.Device.Requests.Answers.{serve_request-accepted}
use remote_virtio_gpu.Device.Requests.Forwards.{finish_keeps}
use remote_virtio_gpu.Renderer.Frame.{frame, read_frame}
use remote_virtio_gpu.Renderer.Frame.Forwarded.{
  joined, for_first, for_first-append, read_frame-forward,
}
use remote_virtio_gpu.Renderer.Virgl.{Virgl, Replaced, Attaches, Setup, PrState}
use remote_virtio_gpu.Renderer.Dispatch.Loop.{sane, dispatch_loop}
use remote_virtio_gpu.Renderer.Dispatch.Synced.{
  ToHost, by_rect, by_box, body_of, resource_of, transfer_of, checked, dispatch_loop-transfer,
}

-- What the two programs agree on, and what the proxy knows of the request and of its resource.
pub record Agreed (penv : Env) (env : Setup) (g : Device) (i : Incoming) (t : ToHost) (res : Res)
    (backing : List Iovec) : Type 0 where
  pub same_layout : env.layout ≡ penv.layout
  pub cmd_small : env.layout.cmd < u32_mod
  pub parsed : env.command_of (joined i.chunks) ≡ i.cmd
  pub measured : i.size ≡ length (joined i.chunks)
  pub fits : i.size ≤ env.layout.cmd
  pub command : i.cmd.body ≡ body_of t
  pub strictly : sanity_check_gpu_ctrl penv.layout i.cmd (i.size % u32_mod) true ≡ ok_nodata
  pub found : res_find (resource_of t) g.reslist ≡ some res
  pub backed : res.backing ≡ some backing
  pub remembered : (has_bit i.cmd.flags flag_fence && not penv.memory) ≡ false

module _ (penv : Env) (state : ResetState) (s : Served) (i : Incoming) (t : ToHost) (res : Res)
    (backing : List Iovec) (out : List ℕ) where
  enqueued_reslist : (enqueued s i).reslist ≡ s.device.reslist
  enqueued_reslist = elim (Bool-cases (has_bit i.cmd.flags flag_fence)) [
    | inl e ↦ unfold add_resp in rw e refl
    | inr e ↦ rw e refl
  ]

  send_res_lem :
      (g : Device) (id : ℕ) (tr : ResTransfer)
      → res_find id g.reslist ≡ some res
      → res.backing ≡ some backing
      → rvgpu_ctx_transfer_to_host penv.guest tr res.info backing penv.garbage ≡ some out
      → gpu_device_send_res penv g id tr ≡ some (ok_nodata, out)
  unfolding gpu_device_send_res
  send_res_lem g id tr f b o = rw (f, b, o, gpu_device_send_res)

  abbrev effect : Device → Effect
  effect g = record (answer penv (ok_nodata, g)) { sent = out }

  serve_body-transfer :
      (t : ToHost) (g : Device)
      → gpu_device_send_res penv g (resource_of t) (transfer_of t) ≡ some (ok_nodata, out)
      → serve_body penv g (body_of t) ≡ result (effect g)
  unfolding serve_body
  serve_body-transfer (by_rect id r offset) g e = rw e
  serve_body-transfer (by_box b) g e = rw e

  meta_transfer : (t : ToHost) → meta s.device (body_of t) ≡ some (0, 0)
  meta_transfer (by_rect id r offset) = refl
  meta_transfer (by_box b) = refl

  -- What the proxy sends for the request: the command, and then the patches.
  serve_request-transfer :
      (env : Setup)
      → Agreed penv env s.device i t res backing
      → rvgpu_ctx_transfer_to_host penv.guest (transfer_of t) res.info backing penv.garbage
        ≡ some out
      → (s' : Served) × (serve_request penv state s i ≡ result s')
        × (s'.sent ≡ s.sent ++ (forward i 0 0 ++ (to_all out ∷ [])))
  serve_request-transfer env a o =
      let g = enqueued s i in
      let found = ap (λ l. res_find (resource_of t) l) enqueued_reslist ∙ a.found in
      let sends = send_res_lem g (resource_of t) (transfer_of t) found a.backed o in
      let run = ap (λ b. serve_body penv g b) a.command ∙ serve_body-transfer t g sends in
      let known : prepared penv s i ≡ some (0, 0) =
        ap (λ b. if b then none else meta s.device i.cmd.body) a.remembered
        ∙ ap (meta s.device) a.command
        ∙ meta_transfer t in
      let s1 : Served = record s {
        device = g;
        sent = s.sent ++ (forward i 0 0 ++ (to_all out ∷ []));
        ctx_id = (accepted_hdr s i.cmd).ctx_id;
      } in
      let hdr = accepted_hdr s i.cmd in
      (
        finish state i.req s1 (record hdr { type = ok_nodata }) (effect g).resp_len
            (effect g).payload,
        serve_request-accepted penv state s i 0 0 (ap is_ok_nodata a.strictly) known
            ∙ ap (conclude penv state s i 0 0) run
            ∙ (unfold conclude in refl),
        (finish_keeps state i.req s1 (record hdr { type = ok_nodata }) (effect g).resp_len
            (effect g).payload).1,
      )

-- The renderer's check of a forwarded control command.
sane_lem :
    {V : Type 0} (vr : Virgl V) (env : Setup) (penv : Env) (i : Incoming) (uhdr : Header)
    → env.layout ≡ penv.layout
    → uhdr.flags ≡ 0
    → uhdr.size ≡ i.size % u32_mod
    → sanity_check_gpu_ctrl penv.layout i.cmd (i.size % u32_mod) true ≡ ok_nodata
    → sane vr env i.cmd uhdr ≡ true
sane_lem vr env penv i uhdr l f n ok = rw f (
    ap is_ok_nodata (
      ap (λ z. sanity_check_gpu_ctrl z i.cmd uhdr.size false) l
      ∙ ap (λ z. sanity_check_gpu_ctrl penv.layout i.cmd z false) n
      ∙ strict_then_lax penv.layout i.cmd (i.size % u32_mod) ok))

-- The proxy serves a transfer to the host, of a resource with memory, with an answer, and the
-- renderer's loop, on what was sent for it and whatever follows, goes on exactly behind that: it
-- accepts the command, takes the patches that belong to it, and then the memory that virglrenderer
-- has of the resource holds the guest's bytes of the transfer at their place and its own bytes
-- elsewhere, and no other resource changed. It is assumed that the proxy's checks accept the
-- command and that it finds memory for an answer that has to wait, that the renderer has attached at least as much memory to the resource as the guest, less
-- than 2 ^ 32 - 1 bytes, and that it finds the transferred part inside the resource, where it exits
-- otherwise.
pub transfer_in_step :
    {V : Type 0} (vr : Virgl V) (attached : V → ℕ → Option (List ℕ)) (laws : Attaches vr attached)
    (penv : Env) (env : Setup) (state : ResetState) (s : Served) (i : Incoming) (t : ToHost)
    (res : Res) (backing : List Iovec) (r : PrState V) (memory rest : List ℕ) (fuel : ℕ)
    → Agreed penv env s.device i t res backing
    → attached r.virgl (resource_of t) ≡ some memory
    → checked vr env t r.virgl ≡ true
    → total backing ≤ length memory
    → length memory < u32_mod - 1
    → (s' : Served) × (sent : List Sent) × (r' : PrState V) × (serve_request penv state s i
        ≡ result s')
      × (s'.sent ≡ s.sent ++ sent)
      × (dispatch_loop vr env (suc fuel) (record r { input = for_first sent ++ rest })
          ≡ dispatch_loop vr env fuel r')
      × (r'.input ≡ rest)
      × Replaced vr attached r.virgl
          (resource_of t)
          (overwrite memory
            (transfer_of t).offset
            (sent_part penv.guest (transfer_of t) res.info backing))
          r'.virgl
transfer_in_step vr attached laws penv env state s i t res backing r memory rest fuel a m c h k =
    let (out, sends, delivers) =
      transfer_to_host_synced penv.guest (transfer_of t) res.info backing penv.garbage memory h k in
    let (s', served, sent_lem) =
      serve_request-transfer penv state s i t res backing out env a sends in
    let sent : List Sent = forward i 0 0 ++ (to_all out ∷ []) in
    let uhdr : Header = record { size = i.size; idx = 0; flags = 0; bpp = 0; stride = 0 } in
    let flat : for_first sent ++ rest ≡ for_first (forward i 0 0) ++ (out ++ rest) =
      ap (λ l. l ++ rest)
        (for_first-append (forward i 0 0) (to_all out ∷ [])
          ∙ ap (λ l. for_first (forward i 0 0) ++ l) (append-nil out))
      ∙ append_assoc (for_first (forward i 0 0)) out rest in
    let read : read_frame env.layout.cmd (for_first sent ++ rest)
        ≡ frame uhdr (joined i.chunks) (out ++ rest) =
      ap (read_frame env.layout.cmd) flat
      ∙ read_frame-forward env.layout.cmd i 0 0 (out ++ rest) a.measured a.fits a.cmd_small
          (omega arith) (omega arith) in
    let fits = a.fits in
    let small = a.cmd_small in
    let ok = sane_lem vr env penv i uhdr a.same_layout refl (omega arith) a.strictly in
    let (r', next, input, replaced) =
      dispatch_loop-transfer vr env attached laws fuel t i.cmd uhdr (joined i.chunks) (out ++ rest)
        rest (record r { input = for_first sent ++ rest }) memory
        (overwrite memory (transfer_of t).offset
          (sent_part penv.guest (transfer_of t) res.info backing))
        read a.parsed a.command ok m c (delivers rest) in
    (s', sent, r', served, sent_lem, next, input, replaced)
