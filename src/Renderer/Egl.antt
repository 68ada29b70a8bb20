-- ===== src/Renderer/Egl.antt =====
-- src/rvgpu-renderer/renderer/rvgpu-egl.c: the sync objects of the contexts, the virtual scanouts, and
-- which scanouts are drawn. Allocations succeed, but that of no bytes gives the null pointer, which
-- an assert refuses. `none` is a failed assert, or an access behind the end of the arrays.
pub mod Room
pub mod Shrinking
mod Tests
use remote_virtio_gpu.Prelude.{
  ℕ, zero, suc, ◌-◌, List, [], ◌∷◌, ◌++◌, Option, none, some, Bool, true, false, not, ◌&&◌, length,
  ltb, leb, ◌==◌, if◌then◌else◌, mul64,
}

-- A place of the arrays `glsyncobjs` and `ctxs`; 0 is the null pointer.
pub record SyncEntry : Type 0 where
  pub sync : ℕ
  pub ctx : ℕ

-- `struct rvgpu_glsyncobjs_state`: the first `cnt` places of the arrays, which have `size` places.
pub record Glsyncobjs : Type 0 where
  pub current_ctx : ℕ
  pub entries : List SyncEntry
  pub size : ℕ

pub data GlCall : Type 0 where
  gl_delete_sync gl_wait_sync : ℕ → GlCall

pub rvgpu_init_glsyncobjs_state : ℕ → Glsyncobjs
rvgpu_init_glsyncobjs_state current_ctx = record {
  current_ctx = current_ctx;
  entries = [];
  size = 1;
}

-- `rvgpu_increment_glsyncobjs_size`. The size in bytes that `realloc` is asked for, which wraps from
-- 2 ^ 61 places on, is not modelled.
pub increment : Glsyncobjs → Glsyncobjs
increment s = record s { size = if leb s.size (length s.entries) then mul64 s.size 2 else s.size }

-- The loop of `rvgpu_set_glsyncobj`: an access behind the arrays; no place of the context; or the
-- places with the object replaced, and the old one.
pub data Replace : Type 0 where
  beyond absent : Replace
  replaced : List SyncEntry → ℕ → Replace

pub behind_entry : SyncEntry → Replace → Replace
behind_entry e (replaced es old) = replaced (e ∷ es) old
behind_entry e r = r

pub replace_loop : ℕ → ℕ → ℕ → ℕ → List SyncEntry → Replace
replace_loop size i ctx sync [] = absent
replace_loop size i ctx sync (e ∷ es) =
    let next = replace_loop size (suc i) ctx sync es in
    elim (ltb i size) [
      | false ↦ beyond
      | true ↦ elim (e.ctx == ctx) [
        | true ↦ replaced (record e { sync = sync } ∷ es) e.sync
        | false ↦ behind_entry e next
      ]
    ]

-- `glFenceSync` gives the object.
pub rvgpu_set_glsyncobj : ℕ → Glsyncobjs → Option (Glsyncobjs × List GlCall)
rvgpu_set_glsyncobj glsyncobj s = elim (replace_loop s.size 0 s.current_ctx glsyncobj s.entries) [
  | beyond ↦ none
  | replaced es old ↦ some (record s { entries = es }, gl_delete_sync old ∷ [])
  | absent ↦
      if ltb (length s.entries) s.size
      then some (
        increment (record s {
          entries = s.entries ++ (record { sync = glsyncobj; ctx = s.current_ctx } ∷ []);
        }),
        [],
      )
      else none
]

-- The loop of `rvgpu_decrement_glsyncobjs_size`.
pub remove_loop : ℕ → ℕ → ℕ → List SyncEntry → Option (List SyncEntry × List GlCall)
remove_loop size i ctx [] = some ([], [])
remove_loop size i ctx (e ∷ es) =
    let next = remove_loop size (suc i) ctx es in
    elim (ltb i size) [
      | false ↦ none
      | true ↦ elim next [
        | none ↦ none
        | some (kept, calls) ↦
            if e.ctx == ctx
            then some (kept, gl_delete_sync e.sync ∷ calls)
            else some (e ∷ kept, calls)
      ]
    ]

-- `rvgpu_decrement_glsyncobjs_size`, the whole that `rvgpu_egl_destroy_context` does to the state.
pub decrement : ℕ → Glsyncobjs → Option (Glsyncobjs × List GlCall)
decrement ctx s = elim (s.size == 0) [
  | true ↦ none
  | false ↦ elim (remove_loop s.size 0 ctx s.entries) [
    | none ↦ none
    | some (kept, calls) ↦
        if s.size - 1 == 0
        then none
        else some (record s { entries = kept; size = s.size - 1 }, calls)
  ]
]

pub wait_loop : ℕ → ℕ → List SyncEntry → Option (List GlCall)
wait_loop size i [] = some []
wait_loop size i (e ∷ es) =
    let next = wait_loop size (suc i) es in
    elim (ltb i size) [
      | false ↦ none
      | true ↦ elim next [
        | none ↦ none
        | some calls ↦
            if not (e.sync == 0) && not (e.ctx == 0)
            then some (gl_wait_sync e.sync ∷ gl_delete_sync e.sync ∷ calls)
            else some calls
      ]
    ]

pub rvgpu_set_wait_glsyncobjs : Glsyncobjs → Option (Glsyncobjs × List GlCall)
rvgpu_set_wait_glsyncobjs s = elim (wait_loop s.size 0 s.entries) [
  | none ↦ none
  | some calls ↦ some (record s { entries = [] }, calls)
]

-- `rvgpu_egl_make_context_current`, but for the call of EGL.
pub make_context_current : ℕ → ℕ → Glsyncobjs → Option (Glsyncobjs × List GlCall)
make_context_current glsyncobj ctx s = elim (rvgpu_set_glsyncobj glsyncobj s) [
  | none ↦ none
  | some (s', calls) ↦ some (record s' { current_ctx = ctx }, calls)
]

-- `struct rvgpu_scanout`, as far as the lists read it.
pub record EglScanout : Type 0 where
  pub scanout_id : ℕ
  pub res_id : ℕ
  pub enabled : Bool

pub rvgpu_get_vscanout : ℕ → List EglScanout → Option EglScanout
rvgpu_get_vscanout id [] = none
rvgpu_get_vscanout id (s ∷ ss) = if s.scanout_id == id then some s else rvgpu_get_vscanout id ss

-- The scanout, and the list with it.
pub rvgpu_create_vscanout : ℕ → List EglScanout → EglScanout × List EglScanout
rvgpu_create_vscanout id ss = elim (rvgpu_get_vscanout id ss) [
  | some s ↦ (s, ss)
  | none ↦
      let s : EglScanout = record { scanout_id = id; res_id = 0; enabled = true } in (s, s ∷ ss)
]

-- The first two loops of `rvgpu_egl_drawall`: the place of the last scanout that shows the resource.
pub last_loop : ℕ → ℕ → List EglScanout → Option ℕ → Option ℕ
last_loop res_id i [] last = last
last_loop res_id i (s ∷ ss) last =
    last_loop res_id (suc i) ss (if s.res_id == res_id then some i else last)

-- The other two: the scanouts for which `rvgpu_egl_draw` is called, each with its `vsync`.
pub draw_loop : ℕ → Bool → Bool → ℕ → ℕ → List EglScanout → List (ℕ × Bool)
draw_loop res_id vsync has_submit_3d_draw last i [] = []
draw_loop res_id vsync has_submit_3d_draw last i (s ∷ ss) =
    let later = draw_loop res_id vsync has_submit_3d_draw last (suc i) ss in
    if s.res_id == res_id && has_submit_3d_draw
    then (s.scanout_id, if i == last then vsync else false) ∷ later
    else later

-- The regular scanouts stand before the virtual ones.
pub rvgpu_egl_drawall : ℕ → Bool → Bool → List EglScanout → List EglScanout → List (ℕ × Bool)
rvgpu_egl_drawall res_id vsync has_submit_3d_draw scanouts vscanouts =
    let all = scanouts ++ vscanouts in
    elim (last_loop res_id 0 all none) [
      | none ↦ []
      | some last ↦ draw_loop res_id vsync has_submit_3d_draw last 0 all
    ]
