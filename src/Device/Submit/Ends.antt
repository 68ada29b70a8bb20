-- ===== src/Device/Submit/Ends.antt =====
-- The loop over the buffer of a SUBMIT_3D command ends.
use mathlib.Core.Path.{subst}
use remote_virtio_gpu.Prelude.{
  ℕ, zero, suc, ◌+◌, ◌/◌, ◌≤◌, ◌<◌, ◌≡◌, ◌≢◌, sym, inl, inr, List, [], ◌++◌, none, some, true,
  false, arith, ltb, Bool-cases, Option-cases, add32, u32_mod, tests,
}
use remote_virtio_gpu.Virtio.{Resp}
use remote_virtio_gpu.Device.{Device}
use remote_virtio_gpu.Device.Submit.{
  Env, word, submit_command, Run, result, aborted, unfinished, submit_loop,
  gpu_device_handle_submit_3d,
}

abbrev pub Finished {ℓ} : {A : Type ℓ} → Run A → Type 0
Finished (result a) = Unit {0}
Finished aborted = Unit {0}
Finished unfinished = ⊥

module _ (env : Env) (g : Device) (words : List ℕ) (size fuel offset : ℕ) (type : Resp)
    (out : List ℕ) where
  pub submit_loop-end :
      size / 4 ≤ offset
      → submit_loop env g words size (suc fuel) offset type out ≡ result (type, out)
  unfolding submit_loop
  submit_loop-end h =
      let last : ltb offset (size / 4) ≡ false = ground arith in rw (last, submit_loop)

  pub submit_loop-abort :
      offset < size / 4
      → submit_command env g (λ i. word env words (offset + i)) type ≡ none
      → submit_loop env g words size (suc fuel) offset type out ≡ aborted
  unfolding submit_loop
  submit_loop-abort h e =
      let more : ltb offset (size / 4) ≡ true = omega tests in rw (more, e, submit_loop)

  pub submit_loop-next :
      (type' : Resp) (sent : List ℕ)
      → offset < size / 4
      → submit_command env g (λ i. word env words (offset + i)) type ≡ some (type', sent)
      → submit_loop env g words size (suc fuel) offset type out
        ≡ submit_loop env g words size fuel
            (add32 offset (word env words (offset + 0) / 65536 + 1))
            type'
            (out ++ sent)
  unfolding submit_loop
  submit_loop-next type' sent h e =
      let more : ltb offset (size / 4) ≡ true = omega tests in rw (more, e, submit_loop)

-- The words of the buffer, and those behind it, are `uint32_t`.
abbrev pub Words : Env → List ℕ → Type 0
Words env words = (i : ℕ) → word env words i < u32_mod

submit_loop_ends :
    (env : Env) (g : Device) (words : List ℕ) (size fuel offset passes : ℕ) (type : Resp)
    (out : List ℕ)
    → Words env words
    → size < u32_mod
    → fuel + passes ≡ suc (size / 4)
    → passes ≤ offset
    → passes ≤ size / 4
    → Finished (submit_loop env g words size fuel offset type out)
submit_loop_ends env g words size zero offset passes type out w h k m n = absurd (omega arith)
submit_loop_ends env g words size (suc fuel) offset passes type out w h k m n =
    elim (Bool-cases (ltb offset (size / 4))) [
      | inr last ↦
          subst Finished
            (sym (submit_loop-end env g words size fuel offset type out (ground arith))) tt
      | inl more ↦
          let inside : offset < size / 4 = omega (tests, more) in
          elim (Option-cases (submit_command env g (λ i. word env words (offset + i)) type)) [
            | inl e ↦
                subst Finished
                  (sym (submit_loop-abort env g words size fuel offset type out inside e)) tt
            | inr ((type', sent), e) ↦
                let bound = w (offset + 0) in
                subst Finished
                  (sym (submit_loop-next env g words size fuel offset type out type' sent inside e))
                  (submit_loop_ends env g words size fuel
                    (add32 offset (word env words (offset + 0) / 65536 + 1)) (suc passes) type'
                    (out ++ sent) w h (omega arith) (omega arith) (omega arith))
          ]
    ]

-- `gpu_device_handle_submit_3d` ends on fuel for each word of the buffer and one more, whatever the
-- words are: each pass steps over at least one, and the offset does not wrap.
pub submit_3d_ends :
    (env : Env) (g : Device) (size : ℕ) (words : List ℕ) (type : Resp)
    → Words env words
    → size < u32_mod
    → gpu_device_handle_submit_3d env g size words type ≢ unfinished
unfolding gpu_device_handle_submit_3d
submit_3d_ends env g size words type w h e = subst Finished e (
    submit_loop_ends env g words size (suc (size / 4)) 0 0 type [] w h (omega arith) (omega arith)
      (omega arith))
