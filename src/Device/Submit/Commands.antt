-- ===== src/Device/Submit/Commands.antt =====
-- The buffer of a SUBMIT_3D command is read as the commands that it was put together from.
use remote_virtio_gpu.Prelude.{
  ℕ, zero, suc, ◌+◌, ◌*◌, ◌/◌, ◌^◌, ◌<◌, ◌≡◌, refl, sym, ap, ◌∙◌, inl, inr, List, [], ◌∷◌, ◌++◌,
  none, some, arith, Option-cases, add32, u32_mod, All, length, length-append, append_assoc,
}
use remote_virtio_gpu.Virtio.{Resp}
use remote_virtio_gpu.Device.{Device}
use remote_virtio_gpu.Device.Submit.{
  Env, word, submit_command, aborted, submit_loop, gpu_device_handle_submit_3d,
}
use remote_virtio_gpu.Device.Submit.Ends.{submit_loop-end, submit_loop-abort, submit_loop-next}
use remote_virtio_gpu.Device.Submit.Joined.{
  IsCommand, joined, run_commands, submit_command_eq, word-joined,
}

module _ (env : Env) (g : Device) (before c rest : List ℕ) (type : Resp) where
  command_here :
      IsCommand c
      → submit_command env g (λ i. word env (before ++ (c ++ rest)) (length before + i)) type
        ≡ submit_command env g (word env c) type
  command_here h =
      submit_command_eq env g _ (word env c) type (first_small c h)
        (λ i k. word-joined env before c rest i (omega (arith, inside c h i k)))
    where
      first_small :
          (xs : List ℕ)
          → IsCommand xs
          → word env (before ++ (xs ++ rest)) (length before + 0) < u32_mod
      first_small [] x = absurd x
      first_small (y ∷ ys) x = rw (word-joined env before (y ∷ ys) rest 0 (omega arith)) x.1

      inside :
          (xs : List ℕ)
          → IsCommand xs
          → (i : ℕ) → i < suc (word env (before ++ (xs ++ rest)) (length before + 0) / 65536)
          → i < length xs
      inside [] x i k = absurd x
      inside (y ∷ ys) x i k =
          let e = word-joined env before (y ∷ ys) rest 0 (omega arith) in
          omega (arith, x.0, rw e at k)

  -- The offset of the command behind.
  next_offset :
      IsCommand c
      → length (before ++ (c ++ rest)) < 2 ^ 30
      → add32 (length before) (word env (before ++ (c ++ rest)) (length before + 0) / 65536 + 1)
        ≡ length (before ++ c)
  next_offset h k = go c h k
    where
      go :
          (xs : List ℕ)
          → IsCommand xs
          → length (before ++ (xs ++ rest)) < 2 ^ 30
          → add32
              (length before)
              (word env (before ++ (xs ++ rest)) (length before + 0) / 65536 + 1)
            ≡ length (before ++ xs)
      go [] x k = absurd x
      go (y ∷ ys) x k =
          let e = word-joined env before (y ∷ ys) rest 0 (omega arith) in
          rw e (
            omega (
              arith,
              x.0,
              length-append before (y ∷ ys),
              length-append before ((y ∷ ys) ++ rest),
              length-append (y ∷ ys) rest,
            ))

module _ (env : Env) (g : Device) (c : List ℕ) (cs : List (List ℕ)) (type : Resp)
    (out : List ℕ) where
  run_commands-abort :
      submit_command env g (word env c) type ≡ none → run_commands env g (c ∷ cs) type out ≡ aborted
  unfolding run_commands
  run_commands-abort e = rw (e, run_commands)

  run_commands-next :
      (type' : Resp) (sent : List ℕ)
      → submit_command env g (word env c) type ≡ some (type', sent)
      → run_commands env g (c ∷ cs) type out ≡ run_commands env g cs type' (out ++ sent)
  unfolding run_commands
  run_commands-next type' sent e = rw (e, run_commands)

-- A command has a word.
command_word : (c : List ℕ) → IsCommand c → 0 < length c
command_word [] h = absurd h
command_word (x ∷ xs) h = omega arith

submit_loop-commands :
    (env : Env) (g : Device) (before : List ℕ) (cs : List (List ℕ)) (fuel : ℕ) (type : Resp)
    (out : List ℕ)
    → All IsCommand cs
    → length (before ++ joined cs) < 2 ^ 30
    → length (joined cs) < fuel
    → submit_loop env g
        (before ++ joined cs)
        (4 * length (before ++ joined cs))
        fuel
        (length before)
        type
        out
      ≡ run_commands env g cs type out
submit_loop-commands env g before cs zero type out h k m = absurd (omega arith)
submit_loop-commands env g before [] (suc fuel) type out h k m =
    submit_loop-end env g (before ++ []) (4 * length (before ++ [])) fuel (length before) type out
      (omega (arith, length-append before []))
    ∙ unfold run_commands in refl
submit_loop-commands env g before (c ∷ cs) (suc fuel) type out (h, hs) k m =
    elim (Option-cases (submit_command env g (word env c) type)) [
      | inl e ↦
          submit_loop-abort env g words size fuel (length before) type out inside (here ∙ e)
          ∙ sym (run_commands-abort env g c cs type out e)
      | inr ((type', sent), e) ↦
          submit_loop-next env g words size fuel (length before) type out type' sent inside
            (here ∙ e)
          ∙ ap (λ o. submit_loop env g words size fuel o type' (out ++ sent))
              (next_offset env g before c (joined cs) type h k)
          ∙ ap
              (λ l.
                submit_loop env g l (4 * length l) fuel (length (before ++ c)) type' (out ++ sent))
              (sym (append_assoc before c (joined cs)))
          ∙ submit_loop-commands env g (before ++ c) cs fuel type' (out ++ sent) hs
              (rw (append_assoc before c (joined cs)) k)
              (omega (arith, length-append c (joined cs), command_word c h))
          ∙ sym (run_commands-next env g c cs type out type' sent e)
    ]
  where
    words : List ℕ
    words = before ++ (c ++ joined cs)

    size : ℕ
    size = 4 * length words

    here :
        submit_command env g (λ i. word env words (length before + i)) type
        ≡ submit_command env g (word env c) type
    here = command_here env g before c (joined cs) type h

    inside : length before < size / 4
    inside = omega (
      arith,
      length-append before (c ++ joined cs),
      length-append c (joined cs),
      command_word c h,
    )

-- On a buffer that was put together from commands, each with its length in its header,
-- `gpu_device_handle_submit_3d` does what these commands do one after the other, and reads no word
-- of another command or behind the end. It is assumed that the buffer has less than 2 ^ 30 words.
pub submit_3d_commands :
    (env : Env) (g : Device) (cs : List (List ℕ)) (type : Resp)
    → All IsCommand cs
    → length (joined cs) < 2 ^ 30
    → gpu_device_handle_submit_3d env g (4 * length (joined cs)) (joined cs) type
      ≡ run_commands env g cs type []
unfolding gpu_device_handle_submit_3d
submit_3d_commands env g cs type h k =
    submit_loop-commands env g [] cs (suc (4 * length (joined cs) / 4)) type [] h k (omega arith)
