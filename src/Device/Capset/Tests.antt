-- ===== src/Device/Capset/Tests.antt =====
-- The capset file at a concrete input.
use remote_virtio_gpu.Prelude.{◌≡◌, refl, [], ◌∷◌, arith}
use remote_virtio_gpu.Device.{Capdata}
use remote_virtio_gpu.Device.Capset.{gpu_capset_init}
use remote_virtio_gpu.Device.Capset.Laws.{Capset, capset_file, gpu_capset_init-file}

abbrev virgl : Capdata
virgl = record { id = 1; version = 1; size = 3; bytes = 7 ∷ 8 ∷ 9 ∷ [] }

abbrev virgl2 : Capdata
virgl2 = record { id = 2; version = 2; size = 1; bytes = 5 ∷ [] }

gpu_capset_init-file_example :
    gpu_capset_init (capset_file (virgl ∷ virgl2 ∷ [])) ≡ virgl ∷ virgl2 ∷ []
gpu_capset_init-file_example =
    gpu_capset_init-file (virgl ∷ virgl2 ∷ []) (is_virgl, (is_virgl2, tt)) (omega arith)
  where
    is_virgl : Capset virgl
    is_virgl = record {
      id_small = omega arith;
      version_small = omega arith;
      sized = refl;
      fits = omega arith;
    }

    is_virgl2 : Capset virgl2
    is_virgl2 = record {
      id_small = omega arith;
      version_small = omega arith;
      sized = refl;
      fits = omega arith;
    }
