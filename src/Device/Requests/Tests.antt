-- ===== src/Device/Requests/Tests.antt =====
-- Runs of the service, and its theorems at concrete inputs.
use remote_virtio_gpu.Prelude.{
  ℕ, ◌+◌, ◌*◌, ◌%◌, ◌≡◌, ◌≢◌, refl, zero, suc, List, [], ◌∷◌, none, true, false, arith, length,
  u32_mod,
}
use remote_virtio_gpu.Virtio.{
  MemEntry, Body, get_display_info, resource_attach_backing, resource_flush, submit_3d, ok_nodata,
  err_invalid_resource_id,
}
use remote_virtio_gpu.Sanity.{sanity_check_gpu_ctrl, check_body}
use remote_virtio_gpu.Sanity.Tests.{linux}
use remote_virtio_gpu.Resource.Transfer.{ResInfo}
use remote_virtio_gpu.Resource.Table.{res_find}
use remote_virtio_gpu.Device.{Device}
use remote_virtio_gpu.Device.Backing.Account.{Accounted}
use remote_virtio_gpu.Device.Submit.{Env, unfinished, gpu_device_handle_submit_3d}
use remote_virtio_gpu.Device.Submit.Ends.{Words}
use remote_virtio_gpu.Device.Submit.Joined.{joined, run_commands}
use remote_virtio_gpu.Device.Submit.Commands.{submit_3d_commands}
use remote_virtio_gpu.Device.Requests.{
  Incoming, ResetStates, reset_none, Served, serve_request, serve_requests,
}
use remote_virtio_gpu.Device.Requests.Keeps.{OnResult}
use remote_virtio_gpu.Device.Requests.Replies.{Answered}
use remote_virtio_gpu.Device.Requests.Answers.{serve_requests-Answered}
use remote_virtio_gpu.Device.Requests.Forwards.{forwarded_accepted}
use remote_virtio_gpu.Device.Requests.Runs.{serve_requests-Accounted, serve_requests_ends}

abbrev screen : ResInfo
screen = record {
  target = 2;
  format = 1;
  width = 64;
  height = 64;
  depth = 1;
  array_size = 1;
  last_level = 0;
  flags = 0;
  bpp = 0;
}

abbrev device : Device
device = record {
  max_mem = 8192;
  curr_mem = 0;
  scanres = 0;
  scan_id = 0;
  capdata = [];
  reslist = record { resid = 3; info = screen; backing = none } ∷ [];
  async_cmds = [];
}

abbrev machine : Env
machine = record {
  layout = linux;
  memory = true;
  map_guest = λ addr len. 65536 + addr;
  guest = λ a. a % 256;
  garbage = record { type = 0; offset = 0; len = 0 };
  stale = λ i. 0;
  rdi_size = 408;
  ci_size = 40;
  c_size = 24;
}

abbrev start : Served
start = record { device = device; sent = []; replies = []; ctx_id = 0; reset = false }

abbrev command : ℕ → ℕ → ℕ → Body → Incoming
command req size flags body = record {
  req = req;
  size = size;
  chunks = [];
  cmd = record { flags = flags; fence_id = 9; ctx_id = 0; body = body };
}

abbrev page : MemEntry
page = record { addr = 4096; length = 4096 }

abbrev ask : Incoming
ask = command 5 24 0 get_display_info

-- With VIRTIO_GPU_FLAG_FENCE.
abbrev attach_page : Incoming
attach_page = command 6 48 1 (resource_attach_backing 3 1 (page ∷ []))

abbrev flush_nothing : Incoming
flush_nothing = command 7 48 0 (resource_flush 0 (record { x = 0; y = 0; width = 8; height = 8 }))

-- No reset comes up.
abbrev no_reset : ResetStates
no_reset n = reset_none

serve_requests-Answered_example :
    OnResult
      (Answered machine no_reset start (ask ∷ attach_page ∷ []))
      (serve_requests machine no_reset start (ask ∷ attach_page ∷ []))
serve_requests-Answered_example =
    serve_requests-Answered machine no_reset start (ask ∷ attach_page ∷ [])

device-Accounted : Accounted device
unfolding res_find
device-Accounted = record {
  counted = refl;
  limited = λ h. omega arith;
  limit_small = omega arith;
  short = (tt, tt);
  distinct = (refl, tt);
}

serve_requests-Accounted_example :
    OnResult
      (λ s'. Accounted s'.device)
      (serve_requests machine no_reset start (ask ∷ attach_page ∷ []))
serve_requests-Accounted_example =
    serve_requests-Accounted machine no_reset start (ask ∷ attach_page ∷ [])
      (tt, (((omega arith, tt), omega arith), tt)) device-Accounted

flush_refused : sanity_check_gpu_ctrl linux flush_nothing.cmd 48 true ≡ err_invalid_resource_id
unfolding sanity_check_gpu_ctrl check_body
flush_refused = refl

forwarded_accepted_example :
    OnResult
      (λ s'. s'.sent ≢ [] → sanity_check_gpu_ctrl linux ask.cmd (24 % u32_mod) false ≡ ok_nodata)
      (serve_request machine reset_none start ask)
forwarded_accepted_example = forwarded_accepted machine reset_none start ask

-- A command with no words behind its header, and one with two.
abbrev two_commands : List (List ℕ)
two_commands = (1 ∷ []) ∷ (131073 ∷ 7 ∷ 8 ∷ []) ∷ []

two_commands-Words : Words machine (joined two_commands)
two_commands-Words zero = omega arith
two_commands-Words (suc zero) = omega arith
two_commands-Words (suc (suc zero)) = omega arith
two_commands-Words (suc (suc (suc zero))) = omega arith
two_commands-Words (suc (suc (suc (suc i)))) = omega arith

submit_3d_commands_example :
    gpu_device_handle_submit_3d machine device
      (4 * length (joined two_commands))
      (joined two_commands)
      ok_nodata
    ≡ run_commands machine device two_commands ok_nodata []
submit_3d_commands_example =
    submit_3d_commands machine device two_commands ok_nodata
      ((omega arith, omega arith), ((omega arith, omega arith), tt)) (omega arith)

-- The same two commands in a buffer that a request holds.
abbrev submits : Incoming
submits = command 8 48 0 (submit_3d 16 (joined two_commands))

serve_requests_ends_example :
    serve_requests machine no_reset start (submits ∷ attach_page ∷ []) ≢ unfinished
serve_requests_ends_example =
    serve_requests_ends machine no_reset start (submits ∷ attach_page ∷ [])
      ((two_commands-Words, omega arith), (tt, tt))
