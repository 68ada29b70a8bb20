-- ===== src/Device/Fences/Tests.antt =====
-- Runs of the fences, and their theorems at concrete inputs.
use remote_virtio_gpu.Prelude.{
  ℕ, ◌≡◌, refl, [], ◌∷◌, true, false, some, none, arith, length, All, Interleaves,
}
use remote_virtio_gpu.Virtio.{ok_nodata}
use remote_virtio_gpu.Device.{Waiting, Device}
use remote_virtio_gpu.Device.Fences.{process_fences, fences_loop, Reached, recv_fence, least_loop}
use remote_virtio_gpu.Device.Fences.Exact.{Due, Waits, process_fences_lem}
use remote_virtio_gpu.Device.Fences.Threads.{World, serve, receive, here, step, Reachable, Fresh}
use remote_virtio_gpu.Device.Fences.Early.{InTime, no_early_answer}

-- An answer with VIRTIO_GPU_FLAG_FENCE.
abbrev waiting : ℕ → Waiting
waiting f = record {
  hdr = record { type = ok_nodata; flags = 1; fence_id = f; ctx_id = 0 };
  req = f;
}

abbrev device : Device
device = record {
  max_mem = 0;
  curr_mem = 0;
  scanres = 0;
  scan_id = 0;
  capdata = [];
  reslist = [];
  async_cmds = waiting 1 ∷ waiting 2 ∷ waiting 3 ∷ [];
}

two_of_three : (process_fences device 2).0 ≡ waiting 1 ∷ waiting 2 ∷ []
unfolding process_fences fences_loop
two_of_three = refl

abbrev two_scanouts : Reached
two_scanouts = record { ids = 0 ∷ 0 ∷ []; flags = false ∷ false ∷ [] }

abbrev start : World
start = record { device = device; reached = two_scanouts; reports = []; pipe = [] }

-- The first scanout's fence is not passed on before the second has reported.
first_alone : (recv_fence 0 2 two_scanouts).0 ≡ none
unfolding recv_fence least_loop
first_alone = refl

then_both : (recv_fence 1 1 (recv_fence 0 2 two_scanouts).1).0 ≡ some 1
unfolding recv_fence least_loop
then_both = refl

process_fences_lem_example :
    let (sent, processed, g') = process_fences device 2 in
    Interleaves sent g'.async_cmds device.async_cmds
    × All (Due 2) sent
    × All (Waits 2) g'.async_cmds
    × (processed ≡ length sent)
process_fences_lem_example = process_fences_lem device 2

abbrev after_both : World
after_both = record start {
  reached = record { ids = 2 ∷ 1 ∷ []; flags = true ∷ true ∷ [] };
  reports = (1, 1) ∷ (0, 2) ∷ [];
  pipe = 1 ∷ [];
}

both_reached : Reachable start after_both
unfolding recv_fence least_loop
both_reached = step (step here (receive 0 2 (omega arith))) (receive 1 1 (omega arith))

two-Fresh : Fresh 2 start
two-Fresh = record { no_ids = refl; no_flags = refl; no_reports = refl; no_fences = refl }

no_early_answer_example : All (InTime 2 after_both) (process_fences device 1).0
no_early_answer_example =
    no_early_answer 2 start after_both
      (record after_both { device = (process_fences device 1).2; pipe = [] })
      (process_fences device 1).0 two-Fresh both_reached (serve 1 [] refl)
