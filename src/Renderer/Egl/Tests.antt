-- ===== src/Renderer/Egl/Tests.antt =====
-- Runs of the sync objects and of the scanouts, and theorems at concrete inputs.
use remote_virtio_gpu.Prelude.{◌≡◌, refl, List, [], ◌∷◌, none, some, true, false}
use remote_virtio_gpu.Renderer.Egl.{
  Glsyncobjs, gl_delete_sync, rvgpu_init_glsyncobjs_state, increment, replace_loop, behind_entry,
  rvgpu_set_glsyncobj, decrement, remove_loop, EglScanout, rvgpu_get_vscanout,
  rvgpu_create_vscanout, last_loop, draw_loop, rvgpu_egl_drawall,
}

-- One context has an object, and one place is free.
abbrev one_object : Glsyncobjs
one_object = record { current_ctx = 7; entries = record { sync = 11; ctx = 5 } ∷ []; size = 2 }

grows :
    rvgpu_set_glsyncobj 12 one_object
    ≡ some (
      record {
        current_ctx = 7;
        entries = record { sync = 11; ctx = 5 } ∷ record { sync = 12; ctx = 7 } ∷ [];
        size = 4;
      },
      [],
    )
unfolding rvgpu_set_glsyncobj replace_loop behind_entry increment
grows = refl

replaces :
    rvgpu_set_glsyncobj 12 (record one_object { current_ctx = 5 })
    ≡ some (
      record { current_ctx = 5; entries = record { sync = 12; ctx = 5 } ∷ []; size = 2 },
      gl_delete_sync 11 ∷ [],
    )
unfolding rvgpu_set_glsyncobj replace_loop behind_entry increment
replaces = refl

last_place : decrement 3 (rvgpu_init_glsyncobjs_state 4) ≡ none
unfolding decrement remove_loop rvgpu_init_glsyncobjs_state
last_place = refl

abbrev screens : List EglScanout
screens =
    record { scanout_id = 0; res_id = 4; enabled = true }
    ∷ record { scanout_id = 1; res_id = 0; enabled = true }
    ∷ []

abbrev virtual_screens : List EglScanout
virtual_screens = record { scanout_id = 20; res_id = 4; enabled = true } ∷ []

vsync_once : rvgpu_egl_drawall 4 true true screens virtual_screens ≡ (0, false) ∷ (20, true) ∷ []
unfolding rvgpu_egl_drawall last_loop draw_loop
vsync_once = refl

created_once : (rvgpu_create_vscanout 20 virtual_screens).1 ≡ virtual_screens
unfolding rvgpu_create_vscanout rvgpu_get_vscanout
created_once = refl
