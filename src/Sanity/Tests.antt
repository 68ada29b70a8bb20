-- ===== src/Sanity/Tests.antt =====
-- Runs of the checks, and their theorems at concrete inputs.
use remote_virtio_gpu.Prelude.{◌*◌, ◌≤◌, ◌<◌, ◌≡◌, ◌↔◌, refl, [], ◌∷◌, true, false}
use remote_virtio_gpu.Virtio.{
  Rect, Box, resource_create_2d, resource_flush, Cmd, ok_nodata, err_invalid_resource_id,
  err_invalid_parameter, Layout,
}
use remote_virtio_gpu.Sanity.{int32_max, sanity_check_bounds, check_body, sanity_check_gpu_ctrl}
use remote_virtio_gpu.Sanity.Bounds.{sanity_check_bounds_iff}
use remote_virtio_gpu.Sanity.Accept.{Sane, sanity_check_gpu_ctrl-Sane}
use remote_virtio_gpu.Sanity.Strict.{strict_then_lax}

-- The sizes of a 64-bit Linux.
abbrev pub linux : Layout
linux = record {
  hdr = 24;
  cmd = 266272;
  r_unref = 32;
  r_c2d = 40;
  s_set = 48;
  r_flush = 48;
  t_2h2d = 56;
  r_att = 32;
  mem_entry = 16;
  r_det = 32;
  t_h3d = 72;
  r_c3d = 72;
  c_create = 96;
  debug_name = 64;
  c_destroy = 24;
  c_res = 32;
  c_submit = 32;
  capset = 32;
  capset_info = 32;
  cursor = 56;
  max_scanouts = 16;
  formats = 1 ∷ 2 ∷ 3 ∷ 4 ∷ 67 ∷ 68 ∷ 121 ∷ 134 ∷ [];
}

abbrev create_screen : Cmd
create_screen = record {
  flags = 0;
  fence_id = 0;
  ctx_id = 0;
  body = resource_create_2d (record { resource_id = 1; format = 1; width = 1920; height = 1080 });
}

abbrev screen_part : Rect
screen_part = record { x = 10; y = 20; width = 100; height = 200 }

abbrev flush_part : Cmd
flush_part = record { flags = 0; fence_id = 0; ctx_id = 0; body = resource_flush 5 screen_part }

abbrev slice : Box
slice = record { x = 1; y = 2; z = 9; w = 3; h = 4; d = 5 }

flush_of_nothing :
    (sanity_check_gpu_ctrl linux (record flush_part { body = resource_flush 0 screen_part }) 48 true
      ≡ err_invalid_resource_id)
    × (sanity_check_gpu_ctrl linux
          (record flush_part { body = resource_flush 0 screen_part })
          48
          false
        ≡ ok_nodata)
    × (sanity_check_gpu_ctrl linux flush_part 47 true ≡ err_invalid_parameter)
unfolding sanity_check_gpu_ctrl check_body sanity_check_bounds
flush_of_nothing = (refl, refl, refl)

sanity_check_bounds_iff_example : (sanity_check_bounds 0 0 1920 1080 ≡ true) ↔ (
    (0 ≤ int32_max) × (0 ≤ int32_max) × (0 < 1920) × (0 < 1080) × (4 * (1080 * 1920) ≤ int32_max))
sanity_check_bounds_iff_example = sanity_check_bounds_iff 0 0 1920 1080

sanity_check_gpu_ctrl-Sane_example :
    (sanity_check_gpu_ctrl linux create_screen 40 true ≡ ok_nodata)
    ↔ Sane linux create_screen 40 true
sanity_check_gpu_ctrl-Sane_example = sanity_check_gpu_ctrl-Sane linux create_screen 40 true

strict_then_lax_example : sanity_check_gpu_ctrl linux flush_part 48 false ≡ ok_nodata
unfolding sanity_check_gpu_ctrl check_body sanity_check_bounds
strict_then_lax_example = strict_then_lax linux flush_part 48 refl
