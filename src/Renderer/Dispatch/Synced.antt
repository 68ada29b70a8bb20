-- ===== src/Renderer/Dispatch/Synced.antt =====
-- What the renderer does with a transfer whose patches follow its command.
use remote_virtio_gpu.Prelude.{
  ℕ, suc, ◌≡◌, refl, ap, ◌∙◌, inl, inr, List, [], ◌∷◌, Option, some, Bool, true, Bool-cases,
  has_bit,
}
use remote_virtio_gpu.Wire.{Header}
use remote_virtio_gpu.Virtio.{Rect, Transfer3d, Body, transfer_to_host_2d, transfer_to_host_3d, Cmd}
use remote_virtio_gpu.Resource.Transfer.{ResTransfer}
use remote_virtio_gpu.Device.Fences.{flag_fence}
use remote_virtio_gpu.Device.Service.{transfer_2d, transfer_3d}
use remote_virtio_gpu.Renderer.Load.{loaded, load_resource_patched}
use remote_virtio_gpu.Renderer.Frame.{frame, read_frame}
use remote_virtio_gpu.Renderer.Virgl.{
  TransferArgs, force_ctx_0, transfer_write_iov, Virgl, SameResources, Replaced, Attaches, Setup,
  PrState,
}
use remote_virtio_gpu.Renderer.Dispatch.{
  ends, write_fences, virgl_write_fence, polled, attach_again, load_resource, check_rect, check_box,
}
use remote_virtio_gpu.Renderer.Dispatch.Loop.{
  rect_args, box_args, performed, dispatch_body, with_fence, latest, fenced, sane, dispatch_command,
  dispatch_loop,
}

-- The commands whose patches follow them.
pub data ToHost : Type 0 where
  by_rect : ℕ → Rect → ℕ → ToHost
  by_box : Transfer3d → ToHost

-- The command, its resource, and the transfer that the proxy makes of it.
abbrev pub body_of : ToHost → Body
body_of (by_rect id r offset) = transfer_to_host_2d id r offset
body_of (by_box t) = transfer_to_host_3d t

abbrev pub resource_of : ToHost → ℕ
resource_of (by_rect id r offset) = id
resource_of (by_box t) = t.resource_id

abbrev pub transfer_of : ToHost → ResTransfer
transfer_of (by_rect id r offset) = transfer_2d r offset
transfer_of (by_box t) = transfer_3d t

-- What the renderer tells virglrenderer of the transfer.
abbrev pub args_of : ℕ → ToHost → TransferArgs
args_of ctx (by_rect id r offset) = rect_args id r offset
args_of ctx (by_box t) = box_args ctx t

module _ {V : Type 0} where
  -- Whether the renderer finds the part inside the resource.
  abbrev pub checked : Virgl V → Setup → ToHost → V → Bool
  checked vr env (by_rect id r offset) v = check_rect vr env id r v
  checked vr env (by_box t) v = check_box vr env t.resource_id t.box v

  -- The calls of `virgl_write_fence` leave the input and virglrenderer's state.
  pub write_fences_keeps :
      (s : PrState V) (ids : List ℕ)
      → ((write_fences s ids).virgl ≡ s.virgl) × ((write_fences s ids).input ≡ s.input)
  unfolding write_fences virgl_write_fence
  write_fences_keeps s [] = (refl, refl)
  write_fences_keeps s (id ∷ ids) = write_fences_keeps (virgl_write_fence s id) ids

module _ {V : Type 0} (vr : Virgl V) (env : Setup) (attached : V → ℕ → Option (List ℕ))
    (laws : Attaches vr attached) where
  Replaced-before :
      {v w v' : V} {id : ℕ} {m : List ℕ}
      → SameResources vr attached v w
      → Replaced vr attached w id m v'
      → Replaced vr attached v id m v'
  Replaced-before same r = record {
    there = r.there;
    elsewhere = λ j ne. r.elsewhere j ne ∙ same.same_memory j;
    same_infos = λ j. r.same_infos j ∙ same.same_info j;
  }

  Replaced-behind :
      {v w v' : V} {id : ℕ} {m : List ℕ}
      → Replaced vr attached v id m w
      → SameResources vr attached w v'
      → Replaced vr attached v id m v'
  Replaced-behind {id = id} r same = record {
    there = same.same_memory id ∙ r.there;
    elsewhere = λ j ne. same.same_memory j ∙ r.elsewhere j ne;
    same_infos = λ j. same.same_info j ∙ r.same_infos j;
  }

  polled_keeps :
      (s : PrState V)
      → SameResources vr attached s.virgl (polled vr env s).virgl
        × ((polled vr env s).input ≡ s.input)
  polled_keeps s =
      let fences = (vr.poll s.virgl).0 in
      let (v, input) = write_fences_keeps (record s { virgl = (vr.poll s.virgl).1 }) fences in
      let kept = laws.poll_keeps s.virgl in
      unfold polled in
      (
        record {
          same_memory = λ id. ap (λ w. attached w id) v ∙ kept.same_memory id;
          same_info = λ id. ap (λ w. vr.get_info id w) v ∙ kept.same_info id;
        },
        input,
      )

  SameResources-refl : (v : V) → SameResources vr attached v v
  SameResources-refl v = record { same_memory = λ id. refl; same_info = λ id. refl }

  SameResources-trans :
      {u v w : V}
      → SameResources vr attached u v
      → SameResources vr attached v w
      → SameResources vr attached u w
  SameResources-trans p q = record {
    same_memory = λ id. q.same_memory id ∙ p.same_memory id;
    same_info = λ id. q.same_info id ∙ p.same_info id;
  }

  load_resource_lem :
      (id : ℕ) (s : PrState V) (memory memory' rest : List ℕ)
      → attached s.virgl id ≡ some memory
      → load_resource_patched s.input memory ≡ loaded memory' rest
      → (s' : PrState V) × (load_resource vr env id s ≡ ends true s')
        × (s'.input ≡ rest)
        × Replaced vr attached s.virgl id memory' s'.virgl
  load_resource_lem id s memory memory' rest a l =
      let given : (vr.detach_iov id s.virgl).0 ≡ some memory = laws.detach_gives id s.virgl ∙ a in
      (
        attach_again vr env id memory' rest (vr.detach_iov id s.virgl).1 s,
        unfold load_resource in rw (given, l, load_resource),
        refl,
        record {
          there = laws.attach_again id memory memory' s.virgl a;
          elsewhere = λ j ne. laws.attach_others id j memory' s.virgl ne;
          same_infos = λ j. laws.attach_info id j memory' s.virgl;
        },
      )

  fenced_keeps :
      (cmd : Cmd) (s : PrState V)
      → SameResources vr attached s.virgl (fenced vr env cmd s).virgl
        × ((fenced vr env cmd s).input ≡ s.input)
  fenced_keeps cmd s = elim (Bool-cases (has_bit cmd.flags flag_fence)) [
    | inr free ↦ unfold fenced in rw (free, fenced) (SameResources-refl s.virgl, refl)
    | inl flag ↦
        elim (Bool-cases (vr.create_fence cmd.fence_id (env.hdr_type cmd.body) s.virgl).0) [
          | inr failed ↦
              unfold fenced with_fence in
              rw (flag, failed, fenced)
                (laws.fence_keeps cmd.fence_id (env.hdr_type cmd.body) s.virgl, refl)
          | inl created ↦
              let s' = record (with_fence vr env cmd s) { fence_received = latest vr env cmd s } in
              let (same, input) = polled_keeps s' in
              unfold fenced with_fence in
              rw (flag, created, fenced)
                (
                  SameResources-trans
                      (laws.fence_keeps cmd.fence_id (env.hdr_type cmd.body) s.virgl) same,
                  input,
                )
        ]
  ]

  -- The check is made after the loading, which does not change the sizes of resources.
  checked_same :
      (t : ToHost) (v v' : V)
      → ((j : ℕ) → vr.get_info j v' ≡ vr.get_info j v)
      → checked vr env t v' ≡ checked vr env t v
  unfolding check_rect check_box
  checked_same (by_rect id r offset) v v' same = rw (same id, check_rect)
  checked_same (by_box t) v v' same = rw (same t.resource_id, check_box)

  dispatch_body-transfer :
      (t : ToHost) (ctx : ℕ) (uhdr : Header) (s s' : PrState V)
      → load_resource vr env (resource_of t) s ≡ ends true s'
      → checked vr env t s'.virgl ≡ true
      → dispatch_body vr env (body_of t) ctx uhdr s
        ≡ ends 0 (performed vr env (transfer_write_iov (args_of ctx t)) s')
  unfolding dispatch_body
  dispatch_body-transfer (by_rect id r offset) ctx uhdr s s' l c = rw (l, c)
  dispatch_body-transfer (by_box t) ctx uhdr s s' l c = rw (l, c)

  dispatch_command-sane :
      (cmd : Cmd) (uhdr : Header) (s s' : PrState V) (draw : ℕ)
      → sane vr env cmd uhdr ≡ true
      → dispatch_body vr env cmd.body cmd.ctx_id uhdr
          (polled vr env (performed vr env force_ctx_0 s))
        ≡ ends draw s'
      → dispatch_command vr env cmd uhdr s ≡ ends draw (fenced vr env cmd s')
  unfolding dispatch_command
  dispatch_command-sane cmd uhdr s s' draw c b = rw (c, b, dispatch_command)

  dispatch_loop-next :
      (fuel : ℕ) (s s' : PrState V) (uhdr : Header) (bytes rest : List ℕ)
      → read_frame env.layout.cmd s.input ≡ frame uhdr bytes rest
      → dispatch_command vr env (env.command_of bytes) uhdr (record s { input = rest }) ≡ ends 0 s'
      → dispatch_loop vr env (suc fuel) s ≡ dispatch_loop vr env fuel s'
  unfolding dispatch_loop
  dispatch_loop-next fuel s s' uhdr bytes rest f d = rw (f, d, dispatch_loop)

  -- A transfer whose patches stand behind its command: the loop goes on behind the patches, with
  -- the new contents in the memory that is attached to the resource.
  pub dispatch_loop-transfer :
      (fuel : ℕ) (t : ToHost) (cmd : Cmd) (uhdr : Header) (bytes input rest : List ℕ)
      (s : PrState V) (memory memory' : List ℕ)
      → read_frame env.layout.cmd s.input ≡ frame uhdr bytes input
      → env.command_of bytes ≡ cmd
      → cmd.body ≡ body_of t
      → sane vr env cmd uhdr ≡ true
      → attached s.virgl (resource_of t) ≡ some memory
      → checked vr env t s.virgl ≡ true
      → load_resource_patched input memory ≡ loaded memory' rest
      → (s' : PrState V) × (dispatch_loop vr env (suc fuel) s ≡ dispatch_loop vr env fuel s')
        × (s'.input ≡ rest)
        × Replaced vr attached s.virgl (resource_of t) memory' s'.virgl
  dispatch_loop-transfer fuel t cmd uhdr bytes input rest s memory memory' f c b ok a k l =
      let s1 : PrState V = performed vr env force_ctx_0 (record s { input = input }) in
      let s2 = polled vr env s1 in
      let (same, input2) = polled_keeps s1 in
      let start = SameResources-trans (laws.force_keeps s.virgl) same in
      let a2 = start.same_memory (resource_of t) ∙ a in
      let (s3, loads, input3, replaced) =
        load_resource_lem (resource_of t) s2 memory memory' rest a2
          (ap (λ i. load_resource_patched i memory) input2 ∙ l) in
      let k3 =
        checked_same t s.virgl s3.virgl (λ j. replaced.same_infos j ∙ start.same_info j) ∙ k in
      let s4 = performed vr env (transfer_write_iov (args_of cmd.ctx_id t)) s3 in
      let run = dispatch_body-transfer t cmd.ctx_id uhdr s2 s3 loads k3 in
      let (same5, input5) = fenced_keeps cmd s4 in
      (
        fenced vr env cmd s4,
        dispatch_loop-next fuel s (fenced vr env cmd s4) uhdr bytes input f (
            ap (λ r. dispatch_command vr env r uhdr (record s { input = input })) c
            ∙ dispatch_command-sane cmd uhdr (record s { input = input }) s4 0 ok
                (ap (λ d. dispatch_body vr env d cmd.ctx_id uhdr s2) b ∙ run)),
        input5 ∙ input3,
        Replaced-before start (
            Replaced-behind replaced
              (SameResources-trans (laws.write_keeps (args_of cmd.ctx_id t) s3.virgl) same5)),
      )
