-- ===== src/Renderer/Virgl.antt =====
-- rvgpu-virgl.c: what `rvgpu_pr_dispatch` and its helpers find around them: virglrenderer, an
-- interface whose state is a parameter; the calls of rvgpu-egl.c; and `struct rvgpu_pr_state`.
use remote_virtio_gpu.Prelude.{ℕ, ◌≡◌, ◌≢◌, List, Option, some, Bool}
use remote_virtio_gpu.Virtio.{Cmd, Body, Box, Layout}
use remote_virtio_gpu.Renderer.Upload.{Upload}

-- `struct virgl_renderer_resource_info`, as far as it is read.
pub record Info : Type 0 where
  pub width : ℕ
  pub height : ℕ
  pub depth : ℕ
  pub tex_id : ℕ
  pub flags : ℕ

-- `struct virgl_renderer_resource_create_args`
pub record CreateArgs : Type 0 where
  pub handle : ℕ
  pub target : ℕ
  pub format : ℕ
  pub bind : ℕ
  pub width : ℕ
  pub height : ℕ
  pub depth : ℕ
  pub array_size : ℕ
  pub last_level : ℕ
  pub nr_samples : ℕ
  pub flags : ℕ

-- The arguments of `virgl_renderer_transfer_write_iov` and `virgl_renderer_transfer_read_iov`.
pub record TransferArgs : Type 0 where
  pub handle : ℕ
  pub ctx_id : ℕ
  pub level : ℕ
  pub stride : ℕ
  pub layer_stride : ℕ
  pub box : Box
  pub offset : ℕ

-- The calls of virglrenderer whose answer is not read.
pub data Call : Type 0 where
  force_ctx_0 : Call
  -- ctx_id, nlen; the name is in the command
  context_create : ℕ → ℕ → Call
  context_destroy : ℕ → Call
  resource_create : CreateArgs → Call
  resource_unref : ℕ → Call
  -- the words, ctx_id, their number
  submit_cmd : List ℕ → ℕ → ℕ → Call
  transfer_write_iov transfer_read_iov : TransferArgs → Call
  -- ctx_id, resource_id
  attach_resource detach_resource : ℕ → ℕ → Call

-- The functions of virglrenderer. An array of `struct iovec` is the memory of its one entry, since
-- `resource_attach_backing` attaches no other.
pub record Virgl (V : Type 0) : Type 0 where
  pub perform : Call → V → V
  pub detach_iov : ℕ → V → Option (List ℕ) × V
  -- `true` is the answer 0.
  pub attach_iov : ℕ → List ℕ → V → Bool × V
  pub get_info : ℕ → V → Option Info
  -- `client_fence_id` and `ctx_id`
  pub create_fence : ℕ → ℕ → V → Bool × V
  -- The fences for which `write_fence` is called, in their order.
  pub poll : V → List ℕ × V
  -- Width, height and pixels.
  pub get_cursor_data : ℕ → V → Option (ℕ × ℕ × List ℕ)

-- Two states with the same resources and the same memory attached to them.
pub record SameResources {V : Type 0} (vr : Virgl V) (attached : V → ℕ → Option (List ℕ)) (v v' : V)
    : Type 0 where
  pub same_memory : (id : ℕ) → attached v' id ≡ attached v id
  pub same_info : (id : ℕ) → vr.get_info id v' ≡ vr.get_info id v

-- The memory attached to one resource was replaced, and nothing else of the resources.
pub record Replaced {V : Type 0} (vr : Virgl V) (attached : V → ℕ → Option (List ℕ)) (v : V)
    (id : ℕ) (memory : List ℕ) (v' : V) : Type 0 where
  pub there : attached v' id ≡ some memory
  pub elsewhere : (j : ℕ) → j ≢ id → attached v' j ≡ attached v j
  pub same_infos : (j : ℕ) → vr.get_info j v' ≡ vr.get_info j v

-- What virglrenderer documents of the memory that is attached to a resource: detaching gives it
-- back and attaching it again, with other contents, succeeds and is of no consequence for the other
-- resources; and changing the context, polling, making a fence and writing to a texture leave all
-- memory where it is.
pub record Attaches {V : Type 0} (vr : Virgl V) (attached : V → ℕ → Option (List ℕ)) : Type 0 where
  pub detach_gives : (id : ℕ) (v : V) → (vr.detach_iov id v).0 ≡ attached v id
  pub attach_again :
      (id : ℕ) (m m' : List ℕ) (v : V)
      → attached v id ≡ some m
      → attached (vr.attach_iov id m' (vr.detach_iov id v).1).1 id ≡ some m'
  pub attach_others :
      (id j : ℕ) (m : List ℕ) (v : V)
      → j ≢ id
      → attached (vr.attach_iov id m (vr.detach_iov id v).1).1 j ≡ attached v j
  pub attach_info :
      (id j : ℕ) (m : List ℕ) (v : V)
      → vr.get_info j (vr.attach_iov id m (vr.detach_iov id v).1).1 ≡ vr.get_info j v
  pub poll_keeps : (v : V) → SameResources vr attached v (vr.poll v).1
  pub force_keeps : (v : V) → SameResources vr attached v (vr.perform force_ctx_0 v)
  pub write_keeps :
      (a : TransferArgs) (v : V) → SameResources vr attached v (vr.perform (transfer_write_iov a) v)
  pub fence_keeps :
      (id type : ℕ) (v : V) → SameResources vr attached v (vr.create_fence id type v).1

-- `struct rvgpu_box`
pub record WindowBox : Type 0 where
  pub x : ℕ
  pub y : ℕ
  pub w : ℕ
  pub h : ℕ

-- `struct rvgpu_scanout_params`, as far as it is read here.
pub record ScanoutParams : Type 0 where
  pub box : WindowBox
  pub boxed : Bool
  pub enabled : Bool

-- `struct rvgpu_virgl_params`
pub record VirglParams : Type 0 where
  pub box : WindowBox
  pub tex_id : ℕ
  pub tex_w : ℕ
  pub tex_h : ℕ
  pub res_id : ℕ
  pub y0_top : Bool

-- The calls of rvgpu-egl.c and of the callbacks of the backend.
pub data EglCall : Type 0 where
  rvgpu_egl_set_scanout : ℕ → VirglParams → EglCall
  set_cursor : ℕ → ℕ → List ℕ → EglCall
  move_cursor : ℕ → ℕ → EglCall

-- What is written to the resource socket.
pub data ResMessage : Type 0 where
  fence : ℕ → ResMessage
  res_transfer : Upload → ResMessage

-- What does not change: the sizes of linux/virtio_gpu.h, the reading of a command from its bytes,
-- its `hdr.type`, what the static buffer held behind a command, whether `malloc` finds memory, the
-- parameters of the scanouts, and which callbacks the backend has.
pub record Setup : Type 0 where
  pub layout : Layout
  pub command_of : List ℕ → Cmd
  pub hdr_type : Body → ℕ
  pub stale : ℕ → ℕ
  pub memory : Bool
  pub scanouts : ℕ → ScanoutParams
  pub has_set_cursor : Bool
  pub has_move_cursor : Bool

-- `struct rvgpu_pr_state`, with virglrenderer's state, the bytes that will arrive, what was written
-- to the resource socket, the calls of rvgpu-egl.c, and the static number of the scanout.
pub record PrState (V : Type 0) : Type 0 where
  pub virgl : V
  pub input : List ℕ
  pub written : List ResMessage
  pub egl_calls : List EglCall
  pub fence_received : ℕ
  pub fence_sent : ℕ
  pub current_scanout_id : ℕ
  pub has_submit_3d_draw : Bool
