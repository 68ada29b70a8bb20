-- ===== src/Renderer/Dispatch/Total.antt =====
-- `rvgpu_pr_dispatch` always returns.
use mathlib.Core.Path.{subst}
use remote_virtio_gpu.Prelude.{
  ℕ, zero, suc, ◌≤◌, ◌<◌, ◌≡◌, ◌≢◌, refl, inl, inr, List, true, false, arith, Bool-cases, length,
  take, drop, ltb, ◌==◌, length-drop,
}
use remote_virtio_gpu.Wire.{header_of, header_size}
use remote_virtio_gpu.Renderer.Frame.{Frame, frame, finished, too_long, too_short, read_frame}
use remote_virtio_gpu.Renderer.Virgl.{Virgl, Setup, PrState}
use remote_virtio_gpu.Renderer.Dispatch.{Ends, ends, unfinished}
use remote_virtio_gpu.Renderer.Dispatch.Loop.{dispatch_command, dispatch_loop, rvgpu_pr_dispatch}
use remote_virtio_gpu.Renderer.Dispatch.Within.{Within, FitsWords, Within-le, Within->>=}
use remote_virtio_gpu.Renderer.Dispatch.Returns.{dispatch_command-Within}

-- What is left of the input behind a command that was read.
abbrev Taken : ℕ → Frame → Type 0
Taken n (frame h bytes rest) = length rest < n
Taken n finished = Unit {0}
Taken n too_long = Unit {0}
Taken n too_short = Unit {0}

read_frame-Taken :
    (cmd_size : ℕ) (input : List ℕ) → Taken (length input) (read_frame cmd_size input)
unfolding read_frame
read_frame-Taken cmd_size input =
    let uhdr = header_of (take header_size input) in
    let behind = drop header_size input in
    let l1 = length-drop header_size input in
    let l2 = length-drop uhdr.size behind in
    elim (Bool-cases (ltb (length input) header_size)) [
      | inl a ↦ rw (a, read_frame) tt
      | inr a ↦ elim (Bool-cases (ltb cmd_size uhdr.size)) [
        | inl b ↦ rw (a, b, read_frame) tt
        | inr b ↦ elim (Bool-cases (ltb (length behind) uhdr.size)) [
          | inr c ↦
              let enough : header_size ≤ length input = ground arith in
              rw (a, b, c, read_frame) (omega arith)
          | inl c ↦ elim (Bool-cases (length behind == 0)) [
            | inl d ↦ rw (a, b, c, d, read_frame) tt
            | inr d ↦ rw (a, b, c, d, read_frame) tt
          ]
        ]
      ]
    ]

module _ {V : Type 0} (vr : Virgl V) (env : Setup)
    (words : (bytes : List ℕ) → FitsWords env (env.command_of bytes).body) where
  -- The rounds behind a command, which have a shorter input.
  module _ (fuel : ℕ)
      (again : (s : PrState V)
        → length s.input < fuel
        → Within (length s.input) (dispatch_loop vr env fuel s)) where
    behind :
        (n draw : ℕ) (s : PrState V)
        → length s.input ≤ n
        → n < fuel
        → Within n (elim (draw == 0) as (λ _. Ends V ℕ) [
          | true ↦ dispatch_loop vr env fuel s
          | false ↦ ends draw s
        ])
    behind n draw s h k = elim (Bool-cases (draw == 0)) [
      | inl e ↦
          rw e
            (Within-le (length s.input) n (dispatch_loop vr env fuel s) h (again s (omega arith)))
      | inr e ↦ rw e h
    ]

    by_frame :
        (s : PrState V) (f : Frame)
        → length s.input < suc fuel
        → Taken (length s.input) f
        → read_frame env.layout.cmd s.input ≡ f
        → Within (length s.input) (dispatch_loop vr env (suc fuel) s)
    by_frame s finished h t e = unfold dispatch_loop in rw (e, dispatch_loop) (omega arith)
    by_frame s too_long h t e = unfold dispatch_loop in rw (e, dispatch_loop) tt
    by_frame s too_short h t e = unfold dispatch_loop in rw (e, dispatch_loop) tt
    by_frame s (frame uhdr bytes rest) h t e =
        let s1 : PrState V = record s { input = rest } in
        unfold dispatch_loop in
        rw (e, dispatch_loop)
          (Within-le (length rest) (length s.input) _ (omega arith) (
            Within->>= (length rest) (dispatch_command vr env (env.command_of bytes) uhdr s1) _
              (dispatch_command-Within vr env (env.command_of bytes) uhdr s1 (words bytes))
              (λ draw s' l. behind (length rest) draw s' l (omega arith))))

  dispatch_loop-Within :
      (fuel : ℕ) (s : PrState V)
      → length s.input < fuel
      → Within (length s.input) (dispatch_loop vr env fuel s)
  dispatch_loop-Within zero s h = absurd (omega arith)
  dispatch_loop-Within (suc fuel) s h =
      by_frame fuel (λ s' l. dispatch_loop-Within fuel s' l) s (read_frame env.layout.cmd s.input) h
        (read_frame-Taken env.layout.cmd s.input) refl

  Within-ne : (n : ℕ) (e : Ends V ℕ) → Within n e → e ≢ unfinished
  Within-ne n e w h = subst (Within n) h w

  -- `rvgpu_pr_dispatch` returns or exits on fuel for each byte of its input and one more, whatever
  -- the bytes are, and whatever virglrenderer answers: each round takes at least a header from the
  -- input, the loading of patches adds nothing to it, and the loop over a SUBMIT_3D buffer ends. It
  -- is assumed that such a buffer holds words of 32 bits, and that its size is a `uint32_t`.
  pub dispatch_returns : (s : PrState V) → rvgpu_pr_dispatch vr env s ≢ unfinished
  unfolding rvgpu_pr_dispatch
  dispatch_returns s = Within-ne (length s.input) _ (
      dispatch_loop-Within (suc (length s.input)) (record s { has_submit_3d_draw = false })
        (omega arith))
