-- ===== src/Device/Requests/Forwards.antt =====
-- What a service sends, what it keeps, and that it ends.
use mathlib.Core.Path.{subst}
use remote_virtio_gpu.Prelude.{
  ℕ, ◌%◌, ◌≡◌, ◌≢◌, sym, inl, inr, Bool, true, false, arith, Option-cases, Bool-cases, has_bit,
  u32_mod,
}
use remote_virtio_gpu.Sanity.{sanity_check_gpu_ctrl}
use remote_virtio_gpu.Sanity.Strict.{strict_then_lax}
use remote_virtio_gpu.Virtio.{Resp, ok_nodata}
use remote_virtio_gpu.Device.{RespHdr}
use remote_virtio_gpu.Device.Backing.Account.{Accounted}
use remote_virtio_gpu.Device.Fences.{add_resp, flag_fence}
use remote_virtio_gpu.Device.Submit.{Env, Run, result, aborted, unfinished}
use remote_virtio_gpu.Device.Service.{Payload, Effect, serve_body, nothing}
use remote_virtio_gpu.Device.Requests.{
  Incoming, ResetState, Served, is_ok_nodata, prepared, finish, enqueued, conclude, serve_request,
}
use remote_virtio_gpu.Device.Requests.Keeps.{OnResult, FitsBody, serve_body-Accounted}
use remote_virtio_gpu.Device.Requests.Answers.{
  serve_request-refused, serve_request-lost, serve_request-accepted,
}

-- The end of a round changes neither the device nor what was sent.
pub finish_keeps :
    (state : ResetState) (req : ℕ) (s : Served) (hdr : RespHdr) (len : ℕ) (p : Payload)
    → ((finish state req s hdr len p).device ≡ s.device)
      × ((finish state req s hdr len p).sent ≡ s.sent)
unfolding finish
finish_keeps state req s hdr len p = elim (Bool-cases (has_bit hdr.flags flag_fence)) [
  | inl e ↦ (rw (e, finish), rw (e, finish))
  | inr e ↦ (rw (e, finish), rw (e, finish))
]

is_ok_nodata_lem : (r : Resp) → is_ok_nodata r ≡ true → r ≡ ok_nodata
is_ok_nodata_lem r h = ground arith

module _ (env : Env) (state : ResetState) (s : Served) (i : Incoming) where
  abbrev check : Bool → Resp
  check strict = sanity_check_gpu_ctrl env.layout i.cmd (i.size % u32_mod) strict

  -- A command that the checks of the proxy refuse leaves the device as it was, and nothing of it is
  -- sent to a renderer.
  pub refused_silent :
      check true ≢ ok_nodata
      → (s' : Served) × (serve_request env state s i ≡ result s')
        × (s'.device ≡ s.device)
        × (s'.sent ≡ s.sent)
  refused_silent h = elim (Bool-cases (is_ok_nodata (check true))) [
    | inl good ↦ absurd (h (is_ok_nodata_lem (check true) good))
    | inr bad ↦
        let hdr : RespHdr = record {
          type = check true;
          flags = 0;
          fence_id = 0;
          ctx_id = s.ctx_id;
        } in
        let (device, sent) = finish_keeps state i.req s hdr env.layout.hdr nothing in
        (
          finish state i.req s hdr env.layout.hdr nothing,
          serve_request-refused env state s i bad,
          device,
          sent,
        )
  ]

  -- If anything of a command is sent to the renderers, the renderer's own check accepts the command.
  pub forwarded_accepted :
      OnResult (λ s'. s'.sent ≢ s.sent → check false ≡ ok_nodata) (serve_request env state s i)
  forwarded_accepted = elim (Bool-cases (is_ok_nodata (check true))) [
    | inr bad ↦
        let hdr : RespHdr = record {
          type = check true;
          flags = 0;
          fence_id = 0;
          ctx_id = s.ctx_id;
        } in
        let (device, sent) = finish_keeps state i.req s hdr env.layout.hdr nothing in
        subst (OnResult (λ s'. s'.sent ≢ s.sent → check false ≡ ok_nodata))
          (sym (serve_request-refused env state s i bad)) (λ ne. absurd (ne sent))
    | inl good ↦
        let strict : check true ≡ ok_nodata = is_ok_nodata_lem (check true) good in
        let lax = strict_then_lax env.layout i.cmd (i.size % u32_mod) strict in
        always (serve_request env state s i) lax
  ]
    where
      always :
          (r : Run Served)
          → check false ≡ ok_nodata
          → OnResult (λ s'. s'.sent ≢ s.sent → check false ≡ ok_nodata) r
      always (result s') lax = λ _. lax
      always aborted lax = tt
      always unfinished lax = tt

  enqueued-Accounted : Accounted s.device → Accounted (enqueued s i)
  enqueued-Accounted a = elim (Bool-cases (has_bit i.cmd.flags flag_fence)) [
    | inl e ↦ rw e (
        unfold add_resp in
        record {
          counted = a.counted;
          limited = a.limited;
          limit_small = a.limit_small;
          short = a.short;
          distinct = a.distinct;
        })
    | inr e ↦ rw e a
  ]

  conclude-Accounted :
      (bpp stride : ℕ) (r : Run Effect)
      → OnResult (λ e. Accounted e.device) r
      → OnResult (λ s'. Accounted s'.device) (conclude env state s i bpp stride r)
  conclude-Accounted bpp stride aborted h = unfold conclude in tt
  conclude-Accounted bpp stride unfinished h = unfold conclude in tt
  conclude-Accounted bpp stride (result e) h =
      unfold conclude in
      (subst Accounted (sym (finish_keeps state i.req _ _ e.resp_len e.payload).0) h)

  pub serve_request-Accounted :
      FitsBody i.cmd.body
      → Accounted s.device
      → OnResult (λ s'. Accounted s'.device) (serve_request env state s i)
  serve_request-Accounted f a = elim (Bool-cases (is_ok_nodata (check true))) [
    | inr bad ↦
        subst (OnResult (λ s'. Accounted s'.device)) (sym (serve_request-refused env state s i bad))
          (subst Accounted (sym (finish_keeps state i.req s _ env.layout.hdr nothing).0) a)
    | inl good ↦ elim (Option-cases (prepared env s i)) [
      | inl lost ↦
          subst (OnResult (λ s'. Accounted s'.device))
            (sym (serve_request-lost env state s i good lost)) tt
      | inr ((bpp, stride), known) ↦
          subst (OnResult (λ s'. Accounted s'.device))
            (sym (serve_request-accepted env state s i bpp stride good known))
            (conclude-Accounted bpp stride (serve_body env (enqueued s i) i.cmd.body)
              (serve_body-Accounted env (enqueued s i) i.cmd.body f (enqueued-Accounted a)))
    ]
  ]
