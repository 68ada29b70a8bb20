-- ===== src/Renderer/Dispatch/Tests.antt =====
-- Runs of the dispatching, and its theorems at concrete inputs.
use remote_virtio_gpu.Prelude.{
  ℕ, ◌%◌, ◌≡◌, ◌≢◌, refl, List, [], ◌∷◌, ◌++◌, Option, none, some, true, false, arith, replicate,
  overwrite, ◌==◌, if◌then◌else◌,
}
use remote_virtio_gpu.Memory.{Iovec}
use remote_virtio_gpu.Virtio.{Transfer3d, transfer_to_host_3d, Cmd}
use remote_virtio_gpu.Sanity.{
  sanity_check_gpu_ctrl, check_body, sanity_check_bounds, sanity_check_resource_box,
}
use remote_virtio_gpu.Sanity.Tests.{linux}
use remote_virtio_gpu.Resource.Transfer.{Res}
use remote_virtio_gpu.Resource.Transfer.Sync.{sent_part}
use remote_virtio_gpu.Resource.Table.{res_find}
use remote_virtio_gpu.Device.Submit.{Env, result}
use remote_virtio_gpu.Device.Requests.{Incoming, Sent, reset_none, Served, serve_request}
use remote_virtio_gpu.Device.Service.{transfer_3d}
use remote_virtio_gpu.Renderer.Frame.Forwarded.{for_first}
use remote_virtio_gpu.Renderer.Virgl.{
  Virgl, SameResources, Replaced, Attaches, ScanoutParams, Setup, PrState,
}
use remote_virtio_gpu.Renderer.Dispatch.{check_box, unfinished}
use remote_virtio_gpu.Renderer.Dispatch.Loop.{dispatch_loop, rvgpu_pr_dispatch}
use remote_virtio_gpu.Renderer.Dispatch.Synced.{by_box}
use remote_virtio_gpu.Renderer.Dispatch.Total.{dispatch_returns}
use remote_virtio_gpu.Renderer.Dispatch.InStep.{Agreed, transfer_in_step}

-- A renderer whose state is the memory attached to each resource, all of 2 x 2 pixels.
abbrev Attachments : Type 0
Attachments = ℕ → Option (List ℕ)

abbrev put : ℕ → Option (List ℕ) → Attachments → Attachments
put id m v j = if j == id then m else v j

abbrev toy : Virgl Attachments
toy = record {
  perform = λ c v. v;
  detach_iov = λ id v. (v id, put id none v);
  attach_iov = λ id m v. (true, put id (some m) v);
  get_info = λ id v. some (record { width = 2; height = 2; depth = 1; tex_id = 1; flags = 0 });
  create_fence = λ id type v. (true, v);
  poll = λ v. ([], v);
  get_cursor_data = λ id v. none;
}

abbrev held : Attachments → ℕ → Option (List ℕ)
held v = v

toy-same : (v : Attachments) → SameResources toy held v v
toy-same v = record { same_memory = λ id. refl; same_info = λ id. refl }

put_self : (id : ℕ) (m : Option (List ℕ)) (v : Attachments) → put id m v id ≡ m
put_self id m v = ground arith

put_other :
    (id j : ℕ) (m n : Option (List ℕ)) (v : Attachments) → j ≢ id → put id m (put id n v) j ≡ v j
put_other id j m n v ne = ground arith

toy-Attaches : Attaches toy held
toy-Attaches = record {
  detach_gives = λ id v. refl;
  attach_again = λ id m m' v h. put_self id (some m') (put id none v);
  attach_others = λ id j m v ne. put_other id j (some m) none v ne;
  attach_info = λ id j m v. refl;
  poll_keeps = toy-same;
  force_keeps = toy-same;
  write_keeps = λ a v. toy-same v;
  fence_keeps = λ id type v. toy-same v;
}

-- The second row of a texture of 2 x 2 pixels of 4 bytes.
abbrev second_row : Transfer3d
second_row = record {
  box = record { x = 0; y = 1; z = 0; w = 2; h = 1; d = 1 };
  offset = 8;
  resource_id = 3;
  level = 0;
  stride = 0;
  layer_stride = 0;
}

-- With VIRTIO_GPU_FLAG_FENCE.
abbrev row_command : Cmd
row_command = record { flags = 1; fence_id = 4; ctx_id = 1; body = transfer_to_host_3d second_row }

abbrev row_request : Incoming
row_request = record {
  req = 5;
  size = 72;
  chunks = replicate 24 0 ∷ replicate 48 7 ∷ [];
  cmd = row_command;
}

abbrev pages : List Iovec
pages = record { iov_base = 16; iov_len = 8 } ∷ record { iov_base = 64; iov_len = 8 } ∷ []

abbrev texture : Res
texture = record {
  resid = 3;
  backing = some pages;
  info = record {
    target = 2;
    format = 1;
    width = 2;
    height = 2;
    depth = 1;
    array_size = 1;
    last_level = 0;
    flags = 0;
    bpp = 4;
  };
}

abbrev proxy : Served
proxy = record {
  device = record {
    max_mem = 0;
    curr_mem = 16;
    scanres = 0;
    scan_id = 0;
    capdata = [];
    reslist = texture ∷ [];
    async_cmds = [];
  };
  sent = [];
  replies = [];
  ctx_id = 0;
  reset = false;
}

abbrev machine : Env
machine = record {
  layout = linux;
  memory = true;
  map_guest = λ addr len. addr;
  guest = λ a. a % 256;
  garbage = record { type = 0; offset = 0; len = 0 };
  stale = λ i. 0;
  rdi_size = 408;
  ci_size = 40;
  c_size = 24;
}

abbrev windows : ℕ → ScanoutParams
windows n = record { box = record { x = 0; y = 0; w = 64; h = 64 }; boxed = false; enabled = true }

abbrev setup : Setup
setup = record {
  layout = linux;
  command_of = λ bytes. row_command;
  hdr_type = λ b. 0;
  stale = λ i. 0;
  memory = true;
  scanouts = windows;
  has_set_cursor = false;
  has_move_cursor = false;
}

abbrev renderer : PrState Attachments
renderer = record {
  virgl = λ id. if id == 3 then some (replicate 16 0) else none;
  input = [];
  written = [];
  egl_calls = [];
  fence_received = 0;
  fence_sent = 0;
  current_scanout_id = 0;
  has_submit_3d_draw = false;
}

agreed : Agreed machine setup proxy.device row_request (by_box second_row) texture pages
unfolding res_find sanity_check_gpu_ctrl check_body sanity_check_bounds
agreed = record {
  same_layout = refl;
  cmd_small = omega arith;
  parsed = refl;
  measured = refl;
  fits = omega arith;
  command = refl;
  strictly = refl;
  found = refl;
  backed = refl;
  remembered = refl;
}

inside : check_box toy setup 3 second_row.box renderer.virgl ≡ true
unfolding check_box sanity_check_resource_box
inside = refl

transfer_in_step_example :
    (s' : Served) × (sent : List Sent) × (r' : PrState Attachments) × (serve_request machine
        reset_none proxy row_request
      ≡ result s')
    × (s'.sent ≡ [] ++ sent)
    × (dispatch_loop toy setup 2 (record renderer { input = for_first sent ++ (9 ∷ []) })
        ≡ dispatch_loop toy setup 1 r')
    × (r'.input ≡ 9 ∷ [])
    × Replaced toy held renderer.virgl 3
        (overwrite
          (replicate 16 0)
          8
          (sent_part machine.guest (transfer_3d second_row) texture.info pages))
        r'.virgl
transfer_in_step_example =
    transfer_in_step toy held toy-Attaches machine setup reset_none proxy row_request
      (by_box second_row) texture pages renderer (replicate 16 0) (9 ∷ []) 1 agreed refl inside
      (omega arith) (omega arith)

dispatch_returns_example :
    rvgpu_pr_dispatch toy setup (record renderer { input = replicate 40 0 }) ≢ unfinished
dispatch_returns_example =
    dispatch_returns toy setup (λ bytes. tt) (record renderer { input = replicate 40 0 })
