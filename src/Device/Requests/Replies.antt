-- ===== src/Device/Requests/Replies.antt =====
-- What the answers of a service are, those that are sent and those that wait, and what the end of a
-- round adds to them.
use remote_virtio_gpu.Prelude.{
  ℕ, ◌%◌, ◌≡◌, refl, List, [], ◌∷◌, ◌++◌, true, false, Bool, ◌&&◌, arith, if◌then◌else◌, has_bit,
  u32_mod,
}
use remote_virtio_gpu.Sanity.{sanity_check_gpu_ctrl}
use remote_virtio_gpu.Virtio.{err_device_reset}
use remote_virtio_gpu.Device.{RespHdr, Waiting}
use remote_virtio_gpu.Device.Fences.{flag_fence}
use remote_virtio_gpu.Device.Submit.{Env}
use remote_virtio_gpu.Device.Service.{Payload}
use remote_virtio_gpu.Device.Requests.{
  Incoming, Reply, ResetState, ResetStates, after_round, reset_none, reset_true, reset_initiated,
  Served, is_ok_nodata, resetting, finish,
}

-- The answer to a command is put off: the checks accept it, and it has a fence.
abbrev pub waits : Env → Incoming → Bool
waits env i =
    is_ok_nodata (sanity_check_gpu_ctrl env.layout i.cmd (i.size % u32_mod) true)
    && has_bit i.cmd.flags flag_fence

-- An answer that is sent at once.
pub record AnswerTo (env : Env) (state : ResetState) (i : Incoming) (r : Reply) : Type 0 where
  pub same_req : r.req ≡ i.req
  pub no_fence : r.hdr.flags ≡ 0
  pub in_reset : resetting state ≡ true → r.hdr.type ≡ err_device_reset
  pub refused :
      (let check = sanity_check_gpu_ctrl env.layout i.cmd (i.size % u32_mod) true in
        is_ok_nodata check ≡ false → resetting state ≡ false → r.hdr.type ≡ check)

-- An answer that waits for the fence of its command.
pub record WaitsFor (i : Incoming) (w : Waiting) : Type 0 where
  pub same_req : w.req ≡ i.req
  pub same_fence : w.hdr.fence_id ≡ i.cmd.fence_id
  pub same_ctx : w.hdr.ctx_id ≡ i.cmd.ctx_id
  pub fenced : w.hdr.flags ≡ 1

-- The answers of a list of requests, those that are sent and those that wait, in their order.
pub data Answers (env : Env)
    : ResetStates → List Incoming → List Reply → List Waiting → Type 0 where
  done : {states : ResetStates} → Answers env states [] [] []
  now :
      {states : ResetStates} {i : Incoming} {is : List Incoming} {r : Reply} {rs : List Reply}
      {ws : List Waiting}
      → waits env i ≡ false
      → AnswerTo env (states 0) i r
      → Answers env (after_round states) is rs ws
      → Answers env states (i ∷ is) (r ∷ rs) ws
  later :
      {states : ResetStates} {i : Incoming} {is : List Incoming} {w : Waiting} {rs : List Reply}
      {ws : List Waiting}
      → waits env i ≡ true
      → WaitsFor i w
      → Answers env (after_round states) is rs ws
      → Answers env states (i ∷ is) rs (w ∷ ws)

-- What a service adds to the answers and to the waiting ones, for these requests.
pub record Answered (env : Env) (states : ResetStates) (s : Served) (is : List Incoming)
    (s' : Served) : Type 0 where
  pub sent : List Reply
  pub put_off : List Waiting
  pub replied : s'.replies ≡ s.replies ++ sent
  pub waiting : s'.device.async_cmds ≡ s.device.async_cmds ++ put_off
  pub each : Answers env states is sent put_off

-- The answer that `finish` sends.
abbrev pub reply_of : ResetState → ℕ → RespHdr → ℕ → Payload → Reply
reply_of state req hdr len p = record {
  req = req;
  hdr = if resetting state then record hdr { type = err_device_reset } else hdr;
  len = len;
  payload = p;
}

pub reply_flags :
    (state : ResetState) (hdr : RespHdr)
    → (if resetting state then record hdr { type = err_device_reset } else hdr).flags ≡ hdr.flags
reply_flags reset_none hdr = refl
reply_flags reset_true hdr = refl
reply_flags reset_initiated hdr = refl

pub reply_type :
    (state : ResetState) (hdr : RespHdr)
    → (let h = if resetting state then record hdr { type = err_device_reset } else hdr in
        (resetting state ≡ true → h.type ≡ err_device_reset)
        × (resetting state ≡ false → h.type ≡ hdr.type))
reply_type reset_none hdr = (λ e. absurd (ground (arith, e)), λ e. refl)
reply_type reset_true hdr = (λ e. refl, λ e. absurd (ground (arith, e)))
reply_type reset_initiated hdr = (λ e. refl, λ e. absurd (ground (arith, e)))

-- The end of a round, for a header without the fence's flag, and for one with it.
pub finish_now :
    (state : ResetState) (req : ℕ) (s : Served) (hdr : RespHdr) (len : ℕ) (p : Payload)
    → has_bit hdr.flags flag_fence ≡ false
    → ((finish state req s hdr len p).replies ≡ s.replies ++ (reply_of state req hdr len p ∷ []))
      × ((finish state req s hdr len p).device ≡ s.device)
unfolding finish
finish_now state req s hdr len p e = (rw (e, finish), rw (e, finish))

pub finish_later :
    (state : ResetState) (req : ℕ) (s : Served) (hdr : RespHdr) (len : ℕ) (p : Payload)
    → has_bit hdr.flags flag_fence ≡ true
    → ((finish state req s hdr len p).replies ≡ s.replies)
      × ((finish state req s hdr len p).device ≡ s.device)
unfolding finish
finish_later state req s hdr len p e = (rw (e, finish), rw (e, finish))
