-- ===== src/Device/Requests/Answers.antt =====
-- Each request is answered once: now, or by an entry that waits for its fence.
use mathlib.Core.Path.{subst}
use remote_virtio_gpu.Prelude.{
  ℕ, ◌%◌, ◌≡◌, refl, sym, ap, ◌∙◌, inl, inr, List, [], ◌∷◌, ◌++◌, none, some, true, false,
  Option-cases, Bool-cases, append_assoc, append-nil, Bool, arith, has_bit, u32_mod,
}
use remote_virtio_gpu.Sanity.{sanity_check_gpu_ctrl}
use remote_virtio_gpu.Device.{RespHdr, Waiting}
use remote_virtio_gpu.Device.Fences.{flag_fence, add_resp}
use remote_virtio_gpu.Device.Submit.{Env, Run, result, aborted, unfinished}
use remote_virtio_gpu.Device.Service.{Effect, serve_body, nothing}
use remote_virtio_gpu.Device.Requests.{
  Incoming, Reply, ResetState, ResetStates, after_round, Served, is_ok_nodata, prepared, finish,
  accepted_hdr, enqueued, conclude, serve_request, serve_requests,
}
use remote_virtio_gpu.Device.Requests.Keeps.{OnResult, serve_body_quiet}
use remote_virtio_gpu.Device.Requests.Replies.{
  waits, AnswerTo, WaitsFor, Answers, done, now, later, Answered, reply_of, reply_flags, reply_type,
  finish_now, finish_later,
}

true_not_false : (b : Bool) → b ≡ true → b ≡ false → ⊥
true_not_false b e f = ground (arith, e, f)

module _ (env : Env) (state : ResetState) (s : Served) (i : Incoming) where
  -- A device whose waiting answers are those of the round's start, and that of the request.
  conclude-Answered :
      (bpp stride : ℕ) (r : Run Effect)
      → is_ok_nodata (sanity_check_gpu_ctrl env.layout i.cmd (i.size % u32_mod) true) ≡ true
      → OnResult (λ e. e.device.async_cmds ≡ (enqueued s i).async_cmds) r
      → OnResult (Answered env (λ _. state) s (i ∷ [])) (conclude env state s i bpp stride r)
  conclude-Answered bpp stride aborted good h = unfold conclude in tt
  conclude-Answered bpp stride unfinished good h = unfold conclude in tt
  conclude-Answered bpp stride (result e) good h =
      elim (Bool-cases (has_bit i.cmd.flags flag_fence)) [
        | inl fenced ↦
            unfold conclude in
            (let hdr : RespHdr = record (accepted_hdr s i.cmd) { type = e.type } in
              let flag : has_bit hdr.flags flag_fence ≡ true = rw fenced refl in
              let (replies, device) = finish_later state i.req _ hdr e.resp_len e.payload flag in
              let w : Waiting = record { hdr = accepted_hdr s i.cmd; req = i.req } in
              let put : WaitsFor i w = record {
                same_req = refl;
                same_fence = rw fenced refl;
                same_ctx = rw fenced refl;
                fenced = rw fenced refl;
              } in
              let late : waits env i ≡ true = rw (good, fenced) refl in
              record {
                sent = [];
                put_off = w ∷ [];
                replied = replies ∙ sym (append-nil s.replies);
                waiting = ap (λ d. d.async_cmds) device ∙ h ∙ (unfold add_resp in rw fenced refl);
                each = later late put done;
              })
        | inr free ↦
            unfold conclude in
            (let hdr : RespHdr = record (accepted_hdr s i.cmd) { type = e.type } in
              let none_set : hdr.flags ≡ 0 = rw free refl in
              let flag : has_bit hdr.flags flag_fence ≡ false = rw free refl in
              let (replies, device) = finish_now state i.req _ hdr e.resp_len e.payload flag in
              let r : Reply = reply_of state i.req hdr e.resp_len e.payload in
              let reply : AnswerTo env state i r = record {
                same_req = refl;
                no_fence = reply_flags state hdr ∙ none_set;
                in_reset = (reply_type state hdr).0;
                refused = λ bad. absurd (true_not_false _ good bad);
              } in
              let prompt : waits env i ≡ false = rw (good, free) refl in
              record {
                sent = r ∷ [];
                put_off = [];
                replied = replies;
                waiting =
                    ap (λ d. d.async_cmds) device
                    ∙ h
                    ∙ rw free (sym (append-nil s.device.async_cmds));
                each = now prompt reply done;
              })
      ]

  pub serve_request-refused :
      is_ok_nodata (sanity_check_gpu_ctrl env.layout i.cmd (i.size % u32_mod) true) ≡ false
      → serve_request env state s i
        ≡ result (
            finish state i.req s
              (record {
                type = sanity_check_gpu_ctrl env.layout i.cmd (i.size % u32_mod) true;
                flags = 0;
                fence_id = 0;
                ctx_id = s.ctx_id;
              })
              env.layout.hdr
              nothing)
  unfolding serve_request
  serve_request-refused e = rw (e, serve_request)

  pub serve_request-lost :
      is_ok_nodata (sanity_check_gpu_ctrl env.layout i.cmd (i.size % u32_mod) true) ≡ true
      → prepared env s i ≡ none
      → serve_request env state s i ≡ aborted
  unfolding serve_request
  serve_request-lost e f = rw (e, f, serve_request)

  pub serve_request-accepted :
      (bpp stride : ℕ)
      → is_ok_nodata (sanity_check_gpu_ctrl env.layout i.cmd (i.size % u32_mod) true) ≡ true
      → prepared env s i ≡ some (bpp, stride)
      → serve_request env state s i
        ≡ conclude env state s i bpp stride (serve_body env (enqueued s i) i.cmd.body)
  unfolding serve_request
  serve_request-accepted bpp stride e f = rw (e, f, serve_request)

  serve_request-Answered :
      OnResult (Answered env (λ _. state) s (i ∷ [])) (serve_request env state s i)
  serve_request-Answered =
      let check = sanity_check_gpu_ctrl env.layout i.cmd (i.size % u32_mod) true in
      elim (Bool-cases (is_ok_nodata check)) [
        | inr bad ↦
            let hdr : RespHdr = record {
              type = check;
              flags = 0;
              fence_id = 0;
              ctx_id = s.ctx_id;
            } in
            let (replies, device) = finish_now state i.req s hdr env.layout.hdr nothing refl in
            let r : Reply = reply_of state i.req hdr env.layout.hdr nothing in
            let reply : AnswerTo env state i r = record {
              same_req = refl;
              no_fence = reply_flags state hdr;
              in_reset = (reply_type state hdr).0;
              refused = λ _. (reply_type state hdr).1;
            } in
            let prompt : waits env i ≡ false = rw bad refl in
            let done_now : Answered env (λ _. state) s (i ∷ [])
                (finish state i.req s hdr env.layout.hdr nothing) =
              record {
                sent = r ∷ [];
                put_off = [];
                replied = replies;
                waiting = ap (λ d. d.async_cmds) device ∙ sym (append-nil s.device.async_cmds);
                each = now prompt reply done;
              } in
            subst (OnResult (Answered env (λ _. state) s (i ∷ [])))
              (sym (serve_request-refused bad)) done_now
        | inl good ↦ elim (Option-cases (prepared env s i)) [
          | inl lost ↦
              subst (OnResult (Answered env (λ _. state) s (i ∷ [])))
                (sym (serve_request-lost good lost)) tt
          | inr ((bpp, stride), known) ↦
              subst (OnResult (Answered env (λ _. state) s (i ∷ [])))
                (sym (serve_request-accepted bpp stride good known))
                (conclude-Answered bpp stride (serve_body env (enqueued s i) i.cmd.body) good
                  (serve_body_quiet env (enqueued s i) i.cmd.body))
        ]
      ]

Answers-before :
    {env : Env} {states : ResetStates} {i : Incoming} {is : List Incoming} {rs rs' : List Reply}
    {ws ws' : List Waiting}
    → Answers env (λ _. states 0) (i ∷ []) rs ws
    → Answers env (after_round states) is rs' ws'
    → Answers env states (i ∷ is) (rs ++ rs') (ws ++ ws')
Answers-before (now w a done) k = now w a k
Answers-before (later w a done) k = later w a k

Answered-before :
    (env : Env) (states : ResetStates) (s s' s'' : Served) (i : Incoming) (is : List Incoming)
    → Answered env (λ _. states 0) s (i ∷ []) s'
    → Answered env (after_round states) s' is s''
    → Answered env states s (i ∷ is) s''
Answered-before env states s s' s'' i is a b = record {
  sent = a.sent ++ b.sent;
  put_off = a.put_off ++ b.put_off;
  replied = b.replied ∙ ap (λ l. l ++ b.sent) a.replied ∙ append_assoc s.replies a.sent b.sent;
  waiting =
      b.waiting
      ∙ ap (λ l. l ++ b.put_off) a.waiting
      ∙ append_assoc s.device.async_cmds a.put_off b.put_off;
  each = Answers-before a.each b.each;
}

pub OnResult-map :
    {A : Type 0} {P Q : A → Type 0} (r : Run A)
    → ((a : A) → P a → Q a)
    → OnResult P r
    → OnResult Q r
OnResult-map (result a) f p = f a p
OnResult-map aborted f p = tt
OnResult-map unfinished f p = tt

-- A round, and the rounds behind it.
serve_rest :
    (env : Env) (states : ResetStates) (s : Served) (i : Incoming) (is : List Incoming)
    (r : Run Served)
    → OnResult (Answered env (λ _. states 0) s (i ∷ [])) r
    → ((s' : Served)
        → OnResult
            (Answered env (after_round states) s' is)
            (serve_requests env (after_round states) s' is))
    → OnResult (Answered env states s (i ∷ is)) (elim r [
      | aborted ↦ aborted
      | unfinished ↦ unfinished
      | result s' ↦ serve_requests env (after_round states) s' is
    ])
serve_rest env states s i is aborted a h = tt
serve_rest env states s i is unfinished a h = tt
serve_rest env states s i is (result s') a h =
    OnResult-map (serve_requests env (after_round states) s' is)
      (λ s'' b. Answered-before env states s s' s'' i is a b) (h s')

-- Serving a list of requests gives each of them one answer, in their order, and nothing else, in
-- every service that gets to its end: a command that the checks accept and that has a fence gets one
-- that waits, with the fence and the context of the command; any other gets one that is sent at once,
-- without a fence, which says so if its round sees a reset, and which otherwise tells a refused
-- command what the check found. A reset may come and go between any two rounds.
pub serve_requests-Answered :
    (env : Env) (states : ResetStates) (s : Served) (is : List Incoming)
    → OnResult (Answered env states s is) (serve_requests env states s is)
unfolding serve_requests
serve_requests-Answered env states s [] = record {
  sent = [];
  put_off = [];
  replied = sym (append-nil s.replies);
  waiting = sym (append-nil s.device.async_cmds);
  each = done;
}
serve_requests-Answered env states s (i ∷ is) =
    serve_rest env states s i is (serve_request env (states 0) s i)
      (serve_request-Answered env (states 0) s i)
      (λ s'. serve_requests-Answered env (after_round states) s' is)
