-- ===== src/Device/Drain/Tests.antt =====
-- The draining at a concrete input.
use mathlib.Core.Option.{none-ne-some}
use remote_virtio_gpu.Prelude.{ℕ, ◌+◌, ◌%◌, ◌<◌, ◌≡◌, ◌≢◌, sym, [], ◌∷◌, none, some, true, arith}
use remote_virtio_gpu.Virtio.{ok_nodata}
use remote_virtio_gpu.Vqueue.{Vqueue, vqueue_init_request}
use remote_virtio_gpu.Vqueue.Drain.{Indices}
use remote_virtio_gpu.Device.{Waiting}
use remote_virtio_gpu.Device.Drain.{Pending, Around, gpu_device_drain_once}
use remote_virtio_gpu.Device.Drain.All.{AllAnswered, drain_once-AllAnswered}

-- Guest memory at one place, and answers of three bytes.
abbrev around : Around
around = record {
  map_guest = λ addr len. some (65536 + addr);
  request = λ n. record vqueue_init_request {
    idx = n;
    w = record { iov_base = 69632; iov_len = 24 } ∷ [];
    mapped = true;
  };
  bytes_of = λ hdr. hdr.flags ∷ hdr.fence_id ∷ hdr.ctx_id ∷ [];
}

-- A queue with this many requests, each with one descriptor.
abbrev queue : ℕ → Vqueue
queue n = record {
  num = 4;
  desc = λ i. record { addr = 4096; len = 24; flags = 2; next = 0 };
  avail_ring = λ i. i;
  avail_idx = n;
  used_ring =
      record { id = 0; len = 0 }
      ∷ record { id = 0; len = 0 }
      ∷ record { id = 0; len = 0 }
      ∷ record { id = 0; len = 0 }
      ∷ [];
  used_idx = 65535;
  last_avail_idx = 0;
}

abbrev waiting : Waiting
waiting = record { hdr = record { type = ok_nodata; flags = 1; fence_id = 4; ctx_id = 0 }; req = 3 }

-- An answer that waits, two control requests and one of the cursor.
abbrev full : Pending
full = record { mem = λ a. a % 256; async_cmds = waiting ∷ []; ctrl = queue 2; cursor = queue 1 }

maps : (addr len : ℕ) → around.map_guest addr len ≢ none
maps addr len e = none-ne-some (65536 + addr) (sym e)

indices : (n : ℕ) → n < 4 → Indices (queue n)
indices n h = record { avail = omega arith; taken = omega arith; used = omega arith }

drain_once-AllAnswered_example :
    (s' : Pending) × (flushed : ℕ) × (kick_ctrl : ℕ) × (kick_cursor : ℕ) × (gpu_device_drain_once
        around 2047 3 full
      ≡ some (s', flushed, kick_ctrl, kick_cursor))
    × AllAnswered around full s' flushed kick_ctrl kick_cursor
drain_once-AllAnswered_example =
    drain_once-AllAnswered around 3 full maps (λ hdr. omega arith) (indices 2 (omega arith))
      (indices 1 (omega arith)) (omega arith) (omega arith)
