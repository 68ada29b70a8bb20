-- ===== src/Pipes/Sending.antt =====
-- What every scanout gets of a sending, on every end of it.
use mathlib.Core.Path.{subst}
use remote_virtio_gpu.Prelude.{
  take-drop, ℕ, ◌+◌, ◌*◌, ◌≤◌, ◌≡◌, refl, sym, ap, ◌∙◌, inl, inr, List, [], ◌∷◌, ◌++◌, Bool, true,
  false, arith, length, take, drop, map, All, Bool-cases, append_assoc, append-nil, length-drop,
  if◌then◌else◌,
}
use remote_virtio_gpu.Utils.{
  Answer, moved, stopped, again, interrupted, failed, Io, returned, blocked,
}
use remote_virtio_gpu.Utils.Willing.{moves}
use remote_virtio_gpu.Pipes.{
  ScanoutPipes, SendResult, all_sent, busy, write_error, write_rest, wrote, in_front, after_write,
  rvgpu_ctx_send,
}

-- The scanouts behind a sending that returned: each got all of the buffer; or those in front got
-- all, one got a part of its start, and those behind it got nothing.
pub data Sendings (buf : List ℕ) : SendResult → List ScanoutPipes → List ScanoutPipes → Type 0 where
  none_left : Sendings buf all_sent [] []
  inactive :
      {s : ScanoutPipes} {ss : List ScanoutPipes}
      → s.activated ≡ false
      → Sendings buf busy (s ∷ ss) (s ∷ ss)
  cut_off :
      {s : ScanoutPipes} {ss : List ScanoutPipes} (part rest : List ℕ)
      → part ++ rest ≡ buf
      → Sendings buf write_error (s ∷ ss) (wrote s part ∷ ss)
  got_all :
      {s : ScanoutPipes} {ss ts : List ScanoutPipes} {r : SendResult}
      → s.activated ≡ true
      → Sendings buf r ss ts
      → Sendings buf r (s ∷ ss) (wrote s buf ∷ ts)

abbrev pub OnReturn {ℓ} : {A : Type ℓ} → (A → Type 0) → Io A → Type 0
OnReturn P blocked = Unit {0}
OnReturn P (returned a) = P a

-- What was written so far, and what was to be written.
abbrev Part : List ℕ → List ℕ × Bool × List Answer → Type 0
Part all (sent, true, ks) = sent ≡ all
Part all (sent, false, ks) = (rest : List ℕ) × (sent ++ rest ≡ all)

write_rest-Part :
    (ks : List Answer) (sent rest all : List ℕ)
    → sent ++ rest ≡ all
    → OnReturn (Part all) (write_rest ks sent rest)
unfolding write_rest
write_rest-Part ks sent [] all e = sym (append-nil sent) ∙ e
write_rest-Part [] sent (b ∷ bs) all e = tt
write_rest-Part (again ∷ ks) sent (b ∷ bs) all e = write_rest-Part ks sent (b ∷ bs) all e
write_rest-Part (stopped ∷ ks) sent (b ∷ bs) all e = write_rest-Part ks sent (b ∷ bs) all e
write_rest-Part (interrupted ∷ ks) sent (b ∷ bs) all e = (b ∷ bs, e)
write_rest-Part (failed ∷ ks) sent (b ∷ bs) all e = (b ∷ bs, e)
write_rest-Part (moved k ∷ ks) sent (b ∷ bs) all e =
    write_rest-Part ks (sent ++ (b ∷ take k bs)) (drop k bs) all (
      append_assoc sent (b ∷ take k bs) (drop k bs)
      ∙ ap (λ l. sent ++ (b ∷ l)) (take-drop k bs)
      ∙ e)

module _ (ks : List Answer) (s : ScanoutPipes) (ss : List ScanoutPipes) (buf : List ℕ) where
  ctx_send-active :
      s.activated ≡ true
      → rvgpu_ctx_send ks (s ∷ ss) buf
        ≡ after_write s ss (λ ks'. rvgpu_ctx_send ks' ss buf) (write_rest ks [] buf)
  unfolding rvgpu_ctx_send
  ctx_send-active on =
      ap
        (λ b.
          if b
          then after_write s ss (λ ks'. rvgpu_ctx_send ks' ss buf) (write_rest ks [] buf)
          else returned (busy, s ∷ ss))
        on

  ctx_send-inactive : s.activated ≡ false → rvgpu_ctx_send ks (s ∷ ss) buf ≡ returned (busy, s ∷ ss)
  unfolding rvgpu_ctx_send
  ctx_send-inactive off =
      ap
        (λ b.
          if b
          then after_write s ss (λ ks'. rvgpu_ctx_send ks' ss buf) (write_rest ks [] buf)
          else returned (busy, s ∷ ss))
        off

-- Whatever the kernel answers, a sending that returns has written to each scanout in turn exactly
-- the buffer, once, up to the scanout at which it stops: that one is not activated and gets nothing,
-- or its write failed and it got a part from the buffer's start; and those behind it get nothing.
pub ctx_send-Sendings :
    (ks : List Answer) (ss : List ScanoutPipes) (buf : List ℕ)
    → OnReturn (λ r. Sendings buf r.0 ss r.1) (rvgpu_ctx_send ks ss buf)
ctx_send-Sendings ks [] buf = unfold rvgpu_ctx_send in none_left
ctx_send-Sendings ks (s ∷ ss) buf = elim (Bool-cases s.activated) [
  | inr off ↦
      subst (OnReturn (λ r. Sendings buf r.0 (s ∷ ss) r.1))
        (sym (ctx_send-inactive ks s ss buf off)) (inactive off)
  | inl on ↦
      subst (OnReturn (λ r. Sendings buf r.0 (s ∷ ss) r.1)) (sym (ctx_send-active ks s ss buf on)) (
        by_write on (write_rest ks [] buf) (write_rest-Part ks [] buf buf refl)
          (λ ks'. ctx_send-Sendings ks' ss buf))
]
  where
    front :
        s.activated ≡ true
        → (r : Io (SendResult × List ScanoutPipes)) → OnReturn (λ r. Sendings buf r.0 ss r.1) r
        → OnReturn (λ r. Sendings buf r.0 (s ∷ ss) r.1) (in_front (wrote s buf) r)
    front on blocked h = tt
    front on (returned (r, ts)) h = got_all on h

    by_write :
        s.activated ≡ true
        → (w : Io (List ℕ × Bool × List Answer)) → OnReturn (Part buf) w
        → ((ks' : List Answer)
            → OnReturn (λ r. Sendings buf r.0 ss r.1) (rvgpu_ctx_send ks' ss buf))
        → OnReturn
            (λ r. Sendings buf r.0 (s ∷ ss) r.1)
            (after_write s ss (λ ks'. rvgpu_ctx_send ks' ss buf) w)
    by_write on blocked h again' = tt
    by_write on (returned (sent, true, ks')) h again' =
        rw h (front on (rvgpu_ctx_send ks' ss buf) (again' ks'))
    by_write on (returned (sent, false, ks')) (rest, e) again' = cut_off sent rest e

-- No answer is an error, an interruption, or 0.
abbrev pub Steady : List Answer → Type 0
Steady [] = Unit {0}
Steady (moved k ∷ ks) = Steady ks
Steady (again ∷ ks) = Steady ks
Steady (stopped ∷ ks) = ⊥
Steady (interrupted ∷ ks) = ⊥
Steady (failed ∷ ks) = ⊥

-- A kernel that goes on answering takes all of it, and the sending returns 0.
write_rest_all :
    (ks : List Answer) (sent rest : List ℕ)
    → Steady ks
    → length rest ≤ moves ks
    → (left : List Answer) × (write_rest ks sent rest ≡ returned (sent ++ rest, true, left))
      × Steady left
      × (moves ks ≤ moves left + length rest)
unfolding write_rest
write_rest_all ks sent [] w h = (ks, rw (append-nil sent), w, omega arith)
write_rest_all [] sent (b ∷ bs) w h = absurd (omega arith)
write_rest_all (again ∷ ks) sent (b ∷ bs) w h = write_rest_all ks sent (b ∷ bs) w h
write_rest_all (stopped ∷ ks) sent (b ∷ bs) w h = absurd w
write_rest_all (interrupted ∷ ks) sent (b ∷ bs) w h = absurd w
write_rest_all (failed ∷ ks) sent (b ∷ bs) w h = absurd w
write_rest_all (moved k ∷ ks) sent (b ∷ bs) w h =
    let n = length-drop k bs in
    let (left, e, v, m) =
      write_rest_all ks (sent ++ (b ∷ take k bs)) (drop k bs) w (omega (arith, n)) in
    (
      left,
      e
          ∙ ap (λ l. returned (l, true, left))
              (append_assoc sent (b ∷ take k bs) (drop k bs)
                ∙ ap (λ l. sent ++ (b ∷ l)) (take-drop k bs)),
      v,
      omega (arith, m, n),
    )

-- Where all scanouts are activated and the kernel goes on answering without an error and without
-- an interruption by a signal, which the code takes for an error, the sending returns 0, and each
-- scanout got the buffer.
pub ctx_send_delivers :
    (ks : List Answer) (ss : List ScanoutPipes) (buf : List ℕ)
    → All (λ s. s.activated ≡ true) ss
    → Steady ks
    → length ss * length buf ≤ moves ks
    → rvgpu_ctx_send ks ss buf ≡ returned (all_sent, map (λ s. wrote s buf) ss)
ctx_send_delivers ks [] buf a w h = unfold rvgpu_ctx_send in refl
ctx_send_delivers ks (s ∷ ss) buf (on, ons) w h =
    let (left, e, v, m) = write_rest_all ks [] buf w (grind arith) in
    let rest = ctx_send_delivers left ss buf ons v (grind (arith, m)) in
    ctx_send-active ks s ss buf on
    ∙ ap (after_write s ss (λ ks'. rvgpu_ctx_send ks' ss buf)) e
    ∙ ap (in_front (wrote s buf)) rest
