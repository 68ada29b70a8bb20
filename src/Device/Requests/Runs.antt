-- ===== src/Device/Requests/Runs.antt =====
-- The service of a list of requests: it ends, and it keeps the account.
use mathlib.Core.Path.{subst}
use remote_virtio_gpu.Prelude.{
  ℕ, ◌%◌, ◌<◌, ◌≢◌, refl, sym, inl, inr, List, [], ◌∷◌, Option, none, some, true, Option-cases,
  Bool-cases, All, u32_mod,
}
use remote_virtio_gpu.Sanity.{sanity_check_gpu_ctrl}
use remote_virtio_gpu.Virtio.{
  Body, submit_3d, transfer_to_host_2d, transfer_to_host_3d, Resp, ok_nodata,
}
use remote_virtio_gpu.Device.{Device}
use remote_virtio_gpu.Device.Backing.Account.{Accounted}
use remote_virtio_gpu.Device.Submit.{
  Env, Run, result, aborted, unfinished, gpu_device_send_res, gpu_device_handle_submit_3d,
}
use remote_virtio_gpu.Device.Submit.Ends.{Words, Finished, submit_3d_ends}
use remote_virtio_gpu.Device.Service.{
  Effect, serve_body, submitted, sending, transfer_2d, transfer_3d,
}
use remote_virtio_gpu.Device.Requests.{
  Incoming, ResetState, ResetStates, after_round, Served, is_ok_nodata, prepared, enqueued,
  conclude, serve_request, serve_requests,
}
use remote_virtio_gpu.Device.Requests.Keeps.{OnResult, FitsBody}
use remote_virtio_gpu.Device.Requests.Answers.{
  serve_request-refused, serve_request-lost, serve_request-accepted,
}
use remote_virtio_gpu.Device.Requests.Forwards.{serve_request-Accounted}

-- The buffer of a SUBMIT_3D command, and what stands behind it, are words of 32 bits.
abbrev pub FitsWords : Env → Body → Type 0
FitsWords env (submit_3d size words) = Words env words × (size < u32_mod)
FitsWords env _ = Unit {0}

module _ (env : Env) where
  sending_ends : (g : Device) (o : Option (Resp × List ℕ)) → Finished (sending env g o)
  sending_ends g none = tt
  sending_ends g (some (type, out)) = tt

  submitted_ends :
      (g : Device) (r : Run (Resp × List ℕ)) → r ≢ unfinished → Finished (submitted env g r)
  submitted_ends g (result (type, out)) h = tt
  submitted_ends g aborted h = tt
  submitted_ends g unfinished h = h refl

  serve_body_ends : (g : Device) (b : Body) → FitsWords env b → Finished (serve_body env g b)
  unfolding serve_body
  serve_body_ends g (submit_3d size words) (w, h) =
      submitted_ends g (gpu_device_handle_submit_3d env g size words ok_nodata)
        (submit_3d_ends env g size words ok_nodata w h)
  serve_body_ends g (transfer_to_host_2d id r o) f =
      sending_ends g (gpu_device_send_res env g id (transfer_2d r o))
  serve_body_ends g (transfer_to_host_3d t) f =
      sending_ends g (gpu_device_send_res env g t.resource_id (transfer_3d t))
  serve_body_ends g _ f = tt

  conclude_ends :
      (state : ResetState) (s : Served) (i : Incoming) (bpp stride : ℕ) (r : Run Effect)
      → Finished r
      → Finished (conclude env state s i bpp stride r)
  unfolding conclude
  conclude_ends state s i bpp stride (result e) h = tt
  conclude_ends state s i bpp stride aborted h = tt
  conclude_ends state s i bpp stride unfinished h = h

  serve_request_ends :
      (state : ResetState) (s : Served) (i : Incoming)
      → FitsWords env i.cmd.body
      → Finished (serve_request env state s i)
  serve_request_ends state s i f =
      elim (Bool-cases
        (is_ok_nodata (sanity_check_gpu_ctrl env.layout i.cmd (i.size % u32_mod) true))) [
          | inr bad ↦ subst Finished (sym (serve_request-refused env state s i bad)) tt
          | inl good ↦ elim (Option-cases (prepared env s i)) [
            | inl lost ↦ subst Finished (sym (serve_request-lost env state s i good lost)) tt
            | inr ((bpp, stride), known) ↦
                subst Finished (sym (serve_request-accepted env state s i bpp stride good known)) (
                  conclude_ends state s i bpp stride (serve_body env (enqueued s i) i.cmd.body)
                    (serve_body_ends (enqueued s i) i.cmd.body f))
          ]
        ]

  -- A round, and the rounds behind it.
  rest_ends :
      (states : ResetStates) (is : List Incoming) (r : Run Served)
      → Finished r
      → ((s' : Served) → Finished (serve_requests env states s' is))
      → Finished (elim r [
        | aborted ↦ aborted
        | unfinished ↦ unfinished
        | result s' ↦ serve_requests env states s' is
      ])
  rest_ends states is (result s') h k = k s'
  rest_ends states is aborted h k = tt
  rest_ends states is unfinished h k = h

  serve_requests-Finished :
      (states : ResetStates) (s : Served) (is : List Incoming)
      → All (λ i. FitsWords env i.cmd.body) is
      → Finished (serve_requests env states s is)
  unfolding serve_requests
  serve_requests-Finished states s [] f = tt
  serve_requests-Finished states s (i ∷ is) (f, fs) =
      rest_ends (after_round states) is (serve_request env (states 0) s i)
        (serve_request_ends (states 0) s i f)
        (λ s'. serve_requests-Finished (after_round states) s' is fs)

  -- The service of any requests ends on the fuel that the loop over a SUBMIT_3D buffer is given,
  -- where the buffers hold words of 32 bits and their sizes are `uint32_t`.
  pub serve_requests_ends :
      (states : ResetStates) (s : Served) (is : List Incoming)
      → All (λ i. FitsWords env i.cmd.body) is
      → serve_requests env states s is ≢ unfinished
  serve_requests_ends states s is f e = subst Finished e (serve_requests-Finished states s is f)

  rest-Accounted :
      (states : ResetStates) (is : List Incoming) (r : Run Served)
      → OnResult (λ s'. Accounted s'.device) r
      → ((s' : Served)
          → Accounted s'.device
          → OnResult (λ s''. Accounted s''.device) (serve_requests env states s' is))
      → OnResult
          (λ s'. Accounted s'.device)
          (elim r [
            | aborted ↦ aborted
            | unfinished ↦ unfinished
            | result s' ↦ serve_requests env states s' is
          ])
  rest-Accounted states is (result s') h k = k s' h
  rest-Accounted states is aborted h k = tt
  rest-Accounted states is unfinished h k = tt

  -- The service of any requests keeps the account of the attached memory and its limit, whatever the
  -- commands are and whether the checks accept them. It is assumed that the lengths of an attachment
  -- are `uint32_t` and add up to less than 2 ^ 63.
  pub serve_requests-Accounted :
      (states : ResetStates) (s : Served) (is : List Incoming)
      → All (λ i. FitsBody i.cmd.body) is
      → Accounted s.device
      → OnResult (λ s'. Accounted s'.device) (serve_requests env states s is)
  unfolding serve_requests
  serve_requests-Accounted states s [] f a = a
  serve_requests-Accounted states s (i ∷ is) (f, fs) a =
      rest-Accounted (after_round states) is (serve_request env (states 0) s i)
        (serve_request-Accounted env (states 0) s i f a)
        (λ s' b. serve_requests-Accounted (after_round states) s' is fs b)
