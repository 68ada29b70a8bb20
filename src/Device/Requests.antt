-- ===== src/Device/Requests.antt =====
-- rvgpu-gpu-device.c: `gpu_device_serve_ctrl` and `gpu_device_serve_cursor`, in the build without
-- VSYNC_ENABLE, on the requests that are taken from their queues.
pub mod Keeps
pub mod Replies
pub mod Answers
pub mod Forwards
pub mod Runs
mod Tests
use remote_virtio_gpu.Prelude.{
  ℕ, suc, ◌%◌, List, [], ◌∷◌, ◌++◌, Option, none, some, Bool, true, false, not, ◌&&◌, map,
  if◌then◌else◌, u32_mod, has_bit,
}
use remote_virtio_gpu.Wire.{Header, header_bytes}
use remote_virtio_gpu.Virtio.{Body, transfer_from_host_3d, Cmd, Resp, ok_nodata, err_device_reset}
use remote_virtio_gpu.Sanity.{sanity_check_gpu_ctrl, sanity_check_gpu_cursor}
use remote_virtio_gpu.Device.{RespHdr, Device}
use remote_virtio_gpu.Device.Fences.{flag_fence, add_resp}
use remote_virtio_gpu.Device.Submit.{Env, Run, result, aborted, unfinished}
use remote_virtio_gpu.Device.Service.{Payload, nothing, Effect, get_meta_res_from_cmd, serve_body}

-- A request from the queue: the number it is answered under, the sum of the lengths of its buffers,
-- their bytes, and the command that they hold.
pub record Incoming : Type 0 where
  pub req : ℕ
  pub size : ℕ
  pub chunks : List (List ℕ)
  pub cmd : Cmd

-- Bytes for every scanout, or for the first one.
pub data Sent : Type 0 where
  to_all : List ℕ → Sent
  to_first : List ℕ → Sent

-- `vqueue_send_response`
pub record Reply : Type 0 where
  pub req : ℕ
  pub hdr : RespHdr
  pub len : ℕ
  pub payload : Payload

-- `gpu_reset_state`
pub data ResetState : Type 0 where
  reset_none reset_true reset_initiated : ResetState

-- The service between two requests; `ctx_id` is what the static answer still holds, and `reset` is
-- the static flag.
pub record Served : Type 0 where
  pub device : Device
  pub sent : List Sent
  pub replies : List Reply
  pub ctx_id : ℕ
  pub reset : Bool

abbrev pub is_ok_nodata : Resp → Bool
is_ok_nodata ok_nodata = true
is_ok_nodata _ = false

abbrev pub resetting : ResetState → Bool
resetting reset_none = false
resetting _ = true

-- `bpp` and `stride` of the header.
abbrev pub meta : Device → Body → Option (ℕ × ℕ)
meta g (transfer_from_host_3d t) = get_meta_res_from_cmd g t
meta g _ = some (0, 0)

abbrev pub address : Body → List ℕ → Sent
address (transfer_from_host_3d t) = to_first
address _ = to_all

-- The header, and then the buffers of the request.
abbrev pub forward : Incoming → ℕ → ℕ → List Sent
forward i bpp stride = map (address i.cmd.body) (
    header_bytes
      (record { size = i.size % u32_mod; idx = 0; flags = 0; bpp = bpp; stride = stride })
    ∷ i.chunks)

-- The end of a round: a reset replaces the answer's type, and only a request without a fence is
-- answered now.
unfoldable pub finish : ResetState → ℕ → Served → RespHdr → ℕ → Payload → Served
finish state req s hdr len payload =
    let hdr' = if resetting state then record hdr { type = err_device_reset } else hdr in
    let s' = record s { reset = if resetting state then true else s.reset } in
    elim (has_bit hdr.flags flag_fence) [
      | true ↦ s'
      | false ↦ record s' {
        replies =
            s'.replies ++ (record { req = req; hdr = hdr'; len = len; payload = payload } ∷ []);
      }
    ]

-- The header of the answer, once the command is accepted.
abbrev pub accepted_hdr : Served → Cmd → RespHdr
accepted_hdr s cmd =
    if has_bit cmd.flags flag_fence
    then record { type = ok_nodata; flags = 1; fence_id = cmd.fence_id; ctx_id = cmd.ctx_id }
    else record { type = ok_nodata; flags = 0; fence_id = 0; ctx_id = s.ctx_id }

abbrev pub enqueued : Served → Incoming → Device
enqueued s i =
    if has_bit i.cmd.flags flag_fence
    then add_resp s.device (accepted_hdr s i.cmd) i.req
    else s.device

-- What comes before the command is forwarded: `add_resp` asserts that it finds memory for an answer
-- that waits, and the header gets its `bpp` and `stride`. `none` ends the program.
abbrev pub prepared : Env → Served → Incoming → Option (ℕ × ℕ)
prepared env s i =
    if has_bit i.cmd.flags flag_fence && not env.memory then none else meta s.device i.cmd.body

-- The end of the round of an accepted command.
unfoldable pub conclude : Env → ResetState → Served → Incoming → ℕ → ℕ → Run Effect → Run Served
conclude env state s i bpp stride aborted = aborted
conclude env state s i bpp stride unfinished = unfinished
conclude env state s i bpp stride (result e) =
    let hdr = accepted_hdr s i.cmd in
    result (
      finish state i.req
        (record s {
          device = e.device;
          sent = s.sent ++ (forward i bpp stride ++ (to_all e.sent ∷ []));
          ctx_id = hdr.ctx_id;
        })
        (record hdr { type = e.type }) e.resp_len e.payload)

-- A round of the loop of `gpu_device_serve_ctrl`.
unfoldable pub serve_request : Env → ResetState → Served → Incoming → Run Served
serve_request env state s i =
    let type = sanity_check_gpu_ctrl env.layout i.cmd (i.size % u32_mod) true in
    elim (is_ok_nodata type) [
      | false ↦ result (
          finish state i.req s (record { type = type; flags = 0; fence_id = 0; ctx_id = s.ctx_id })
            env.layout.hdr nothing)
      | true ↦ elim (prepared env s i) [
        | none ↦ aborted
        | some (bpp, stride) ↦
            conclude env state s i bpp stride (serve_body env (enqueued s i) i.cmd.body)
      ]
    ]

-- `gpu_reset_state` as each of the rounds reads it, which another thread may change between two.
abbrev pub ResetStates : Type 0
ResetStates = ℕ → ResetState

abbrev pub after_round : ResetStates → ResetStates
after_round states n = states (suc n)

-- The loop of `gpu_device_serve_ctrl`.
pub serve_requests : Env → ResetStates → Served → List Incoming → Run Served
serve_requests env states s [] = result s
serve_requests env states s (i ∷ is) = elim (serve_request env (states 0) s i) [
  | aborted ↦ aborted
  | unfinished ↦ unfinished
  | result s' ↦ serve_requests env (after_round states) s' is
]

-- What the service asks of the backend behind the loop, and `gpu_reset_state` and the flag then.
pub data Handshake : Type 0 where
  no_call : Handshake
  -- rvgpu_ctx_wait(GPU_RESET_NONE)
  wait_none : Handshake
  -- rvgpu_frontend_reset_state(GPU_RESET_INITIATED), rvgpu_ctx_wakeup
  initiate : Handshake

pub end_service : ResetState → Bool → Handshake × ResetState × Bool
end_service state false = (no_call, state, false)
end_service reset_none true = (wait_none, reset_none, false)
end_service reset_true true = (initiate, reset_initiated, true)
end_service reset_initiated true = (no_call, reset_initiated, true)

-- RVGPU_CURSOR
abbrev pub flag_cursor : ℕ
flag_cursor = 16

-- A round of the loop of `gpu_device_serve_cursor`: what is sent, and the answer.
pub serve_cursor : Env → Incoming → List Sent × Reply
serve_cursor env i =
    let type = sanity_check_gpu_cursor env.layout i.cmd i.size true in
    let fence = has_bit i.cmd.flags flag_fence in
    elim (is_ok_nodata type) [
      | false ↦ (
        [],
        record {
          req = i.req;
          hdr = record { type = type; flags = 0; fence_id = 0; ctx_id = 0 };
          len = env.layout.hdr;
          payload = nothing;
        },
      )
      | true ↦ (
        map to_all (
            header_bytes (record {
              size = i.size % u32_mod;
              idx = 0;
              flags = flag_cursor;
              bpp = 0;
              stride = 0;
            })
            ∷ i.chunks),
        record {
          req = i.req;
          hdr = record {
            type = type;
            flags = if fence then 1 else 0;
            fence_id = if fence then i.cmd.fence_id else 0;
            ctx_id = if fence then i.cmd.ctx_id else 0;
          };
          len = env.layout.hdr;
          payload = nothing;
        },
      )
    ]
