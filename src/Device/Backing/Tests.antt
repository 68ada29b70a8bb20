-- ===== src/Device/Backing/Tests.antt =====
-- Runs of the operations on resources and memory, and their theorems at concrete inputs.
use remote_virtio_gpu.Prelude.{ℕ, ◌+◌, refl, [], ◌∷◌, none, arith}
use remote_virtio_gpu.Virtio.{MemEntry}
use remote_virtio_gpu.Resource.Transfer.{ResInfo, Res}
use remote_virtio_gpu.Resource.Table.{res_find}
use remote_virtio_gpu.Device.{Device}
use remote_virtio_gpu.Device.Backing.Account.{Accounted}

abbrev screen : ResInfo
screen = record {
  target = 2;
  format = 1;
  width = 64;
  height = 64;
  depth = 1;
  array_size = 1;
  last_level = 0;
  flags = 0;
  bpp = 4;
}

abbrev bare_screen : Res
bare_screen = record { resid = 3; info = screen; backing = none }

-- 8 KB may be attached.
abbrev device : Device
device = record {
  max_mem = 8192;
  curr_mem = 0;
  scanres = 0;
  scan_id = 0;
  capdata = [];
  reslist = bare_screen ∷ [];
  async_cmds = [];
}

abbrev page : ℕ → MemEntry
page n = record { addr = n; length = 4096 }

-- Guest memory that is mapped at one place.
abbrev place : ℕ → ℕ → ℕ
place addr len = 65536 + addr

device-Accounted : Accounted device
unfolding res_find
device-Accounted = record {
  counted = refl;
  limited = λ h. omega arith;
  limit_small = omega arith;
  short = (tt, tt);
  distinct = (refl, tt);
}
