-- ===== src/Renderer/Dispatch.antt =====
-- rvgpu-virgl.c: the functions that `rvgpu_pr_dispatch` calls for its commands.
pub mod Loop
pub mod Synced
pub mod InStep
pub mod Returns
pub mod Within
pub mod Total
mod Tests
use remote_virtio_gpu.Prelude.{
  ℕ, zero, suc, ◌+◌, ◌*◌, ◌/◌, ◌%◌, List, [], ◌∷◌, ◌++◌, Option, none, some, Bool, true, false, not,
  ◌||◌, length, take, replicate, get_or, ltb, ◌==◌, ◌!=◌, if◌then◌else◌, add32, add64, u32_mod,
}
use remote_virtio_gpu.Virtio.{Rect, Box, Transfer3d, MemEntry}
use remote_virtio_gpu.Sanity.{sanity_check_resource_rect, sanity_check_resource_box}
use remote_virtio_gpu.Device.Submit.{transfer3d_header, copy_transfer3d_header}
use remote_virtio_gpu.Renderer.Load.{Loaded, loaded, closed, wrong_patch, load_resource_patched}
use remote_virtio_gpu.Renderer.Upload.{upload_resource}
use remote_virtio_gpu.Renderer.Virgl.{
  Info, Virgl, force_ctx_0, submit_cmd, WindowBox, VirglParams, EglCall, rvgpu_egl_set_scanout,
  set_cursor, move_cursor, ResMessage, fence, res_transfer, Setup, PrState,
}

-- How a call ends: with an answer and the state, by `err` or `errx`, or not on its fuel.
pub data Ends {ℓ} (V : Type 0) (A : Type ℓ) : Type ℓ where
  ends : A → PrState V → Ends V A
  exits : Ends V A
  unfinished : Ends V A

infixl 5 ◌>>=◌
abbrev pub ◌>>=◌ {ℓ κ} :
    {V : Type 0} {A : Type ℓ} {B : Type κ} → Ends V A → (A → PrState V → Ends V B) → Ends V B
ends a s >>= f = f a s
exits >>= f = exits
unfinished >>= f = unfinished

-- The answer of a call that has none.
abbrev pub Nothing : Type 0
Nothing = Unit {0}

module _ {V : Type 0} where
  pub virgl_write_fence : PrState V → ℕ → PrState V
  virgl_write_fence s id = record s {
    fence_sent = if ltb s.fence_sent id then id else s.fence_sent;
    written = s.written ++ (fence id ∷ []);
  }

  pub write_fences : PrState V → List ℕ → PrState V
  write_fences s [] = s
  write_fences s (id ∷ ids) = write_fences (virgl_write_fence s id) ids

  abbrev pub call_egl : PrState V → EglCall → PrState V
  call_egl s c = record s { egl_calls = s.egl_calls ++ (c ∷ []) }

module _ {V : Type 0} (vr : Virgl V) (env : Setup) where
  -- `virgl_renderer_poll`, with its calls of `virgl_write_fence`.
  pub polled : PrState V → PrState V
  polled s = let (ids, v) = vr.poll s.virgl in write_fences (record s { virgl = v }) ids

  abbrev pub memory_length : List MemEntry → ℕ → ℕ
  memory_length [] sum = sum
  memory_length (e ∷ es) sum = memory_length es (add64 sum e.length)

  pub resource_attach_backing : ℕ → ℕ → List MemEntry → PrState V → Ends V Nothing
  resource_attach_backing id nr_entries entries s =
      let size = memory_length (take nr_entries entries) 0 in
      if size == 0 || not env.memory
      then exits
      else (let (attached, v) = vr.attach_iov id (replicate size 0) s.virgl in
          if attached then ends tt (record s { virgl = v }) else exits)

  -- The memory is attached again, whatever the answer of that.
  abbrev pub attach_again : ℕ → List ℕ → List ℕ → V → PrState V → PrState V
  attach_again id memory input v s = record s {
    virgl = (vr.attach_iov id memory v).1;
    input = input;
  }

  pub load_resource : ℕ → PrState V → Ends V Bool
  load_resource id s =
      let (p, v) = vr.detach_iov id s.virgl in
      elim p [
        | none ↦ ends false (record s { virgl = v })
        | some memory ↦ elim (load_resource_patched s.input memory) [
          | loaded memory' rest ↦ ends true (attach_again id memory' rest v s)
          | closed memory' ↦ ends false (attach_again id memory' [] v s)
          | wrong_patch ↦ exits
        ]
      ]

  -- `upload_resource` with the detaching and attaching round it.
  pub upload : Transfer3d → ℕ → ℕ → PrState V → Ends V Nothing
  upload t bpp stride s =
      let (p, v) = vr.detach_iov t.resource_id s.virgl in
      elim p [
        | none ↦ exits
        | some memory ↦ elim (upload_resource (some memory) t bpp stride) [
          | none ↦ exits
          | some u ↦ ends tt (record s {
            virgl = (vr.attach_iov t.resource_id memory v).1;
            written = s.written ++ (res_transfer u ∷ []);
          })
        ]
      ]

  -- Detaching, and freeing what was detached.
  pub free_backing : ℕ → PrState V → PrState V
  free_backing id s = record s { virgl = (vr.detach_iov id s.virgl).1 }

  pub clear_scanout : ℕ → PrState V → PrState V
  clear_scanout id s =
      let sp = env.scanouts id in
      let params : VirglParams = record {
        box = if sp.boxed then sp.box else record { x = 0; y = 0; w = 100; h = 100 };
        tex_id = 0;
        tex_w = 0;
        tex_h = 0;
        res_id = 0;
        y0_top = false;
      } in
      call_egl s (rvgpu_egl_set_scanout id params)

  -- The box of a scanout that shows a resource.
  abbrev pub scanout_box : ℕ → Rect → Info → WindowBox
  scanout_box id r info =
      let sp = env.scanouts id in
      if sp.boxed
      then sp.box
      else if r.width == 0 || r.height == 0
      then record { x = r.x; y = r.y; w = info.width; h = info.height }
      else record { x = r.x; y = r.y; w = r.width; h = r.height }

  abbrev pub info_of : ℕ → V → Option Info
  info_of id v = if id == 0 then none else vr.get_info id v

  pub set_scanout : ℕ → ℕ → Rect → PrState V → Ends V Nothing
  set_scanout scanout_id id r s = elim (info_of id s.virgl) [
    | none ↦ ends tt (clear_scanout scanout_id s)
    | some info ↦
        let params : VirglParams = record {
          box = scanout_box scanout_id r info;
          tex_id = info.tex_id;
          tex_w = info.width;
          tex_h = info.height;
          res_id = id;
          y0_top = info.flags % 2 == 1;
        } in
        if sanity_check_resource_rect r info.width info.height
        then ends tt (call_egl s (rvgpu_egl_set_scanout scanout_id params))
        else exits
  ]

  pub check_rect : ℕ → Rect → V → Bool
  check_rect id r v = elim (vr.get_info id v) [
    | none ↦ false
    | some info ↦ sanity_check_resource_rect r info.width info.height
  ]

  pub check_box : ℕ → Box → V → Bool
  check_box id b v = elim (vr.get_info id v) [
    | none ↦ false
    | some info ↦ sanity_check_resource_box b info.width info.height info.depth
  ]

  pub rvgpu_serve_update_cursor : ℕ → PrState V → PrState V
  rvgpu_serve_update_cursor id s =
      if not env.has_set_cursor then s else elim (vr.get_cursor_data id s.virgl) [
        | none ↦ s
        | some (w, h, pixels) ↦ call_egl s (set_cursor w h pixels)
      ]

  pub rvgpu_serve_move_cursor : ℕ → ℕ → PrState V → PrState V
  rvgpu_serve_move_cursor x y s =
      if not env.has_move_cursor then s else call_egl s (move_cursor x y)

  -- The resource that a command of the buffer transfers, whose words stand from `buf 0` on.
  abbrev pub transferred : (ℕ → ℕ) → Option ℕ
  transferred buf =
      if buf 0 == transfer3d_header
      then some (buf 1)
      else if buf 0 == copy_transfer3d_header
      then some (buf 12)
      else none

  -- Whether the loading ended well makes no difference.
  pub load_transferred : Option ℕ → PrState V → Ends V Bool
  load_transferred none s = ends true s
  load_transferred (some id) s = load_resource id s

  pub submit_loads : List ℕ → ℕ → ℕ → ℕ → PrState V → Ends V Nothing
  submit_loads words size zero offset s = unfinished
  submit_loads words size (suc fuel) offset s = elim (ltb offset (size / 4)) [
    | false ↦ ends tt s
    | true ↦
        let buf : ℕ → ℕ = λ i. get_or words (offset + i) (env.stale (offset + i)) in
        load_transferred (transferred buf) s >>= λ _ s'.
        submit_loads words size fuel (add32 offset (buf 0 / 65536 + 1)) s'
  ]

  -- On fuel for each word and one more.
  pub rvgpu_handle_submit_3d : ℕ → ℕ → List ℕ → PrState V → Ends V Nothing
  rvgpu_handle_submit_3d ctx_id size words s =
      submit_loads words size (suc (size / 4)) 0 s >>= λ _ s'. ends tt (record s' {
        virgl = vr.perform (submit_cmd words ctx_id (size / 4)) s'.virgl;
        has_submit_3d_draw = true;
      })
