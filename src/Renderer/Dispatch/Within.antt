-- ===== src/Renderer/Dispatch/Within.antt =====
-- The steps of the dispatching that read from the input: they return, and leave no more of it.
use mathlib.Core.Path.{subst}
use remote_virtio_gpu.Prelude.{
  ℕ, zero, suc, ◌+◌, ◌/◌, ◌≤◌, ◌<◌, ◌≡◌, refl, sym, inl, inr, List, Option, none, some, true, false,
  arith, tests, Bool-cases, Option-cases, length, get_or, ltb, add32, u32_mod, has_bit,
}
use remote_virtio_gpu.Virtio.{Body, submit_3d, Cmd}
use remote_virtio_gpu.Renderer.Load.{Loaded, loaded, closed, wrong_patch, load_resource_patched}
use remote_virtio_gpu.Renderer.Load.Shorter.{Shorter, load_resource_patched-Shorter}
use remote_virtio_gpu.Renderer.Virgl.{Virgl, Setup, PrState}
use remote_virtio_gpu.Device.Fences.{flag_fence}
use remote_virtio_gpu.Renderer.Dispatch.Loop.{with_fence, latest, fenced}
use remote_virtio_gpu.Renderer.Dispatch.Synced.{write_fences_keeps}
use remote_virtio_gpu.Renderer.Dispatch
use remote_virtio_gpu.Renderer.Dispatch.{Ends, ends, exits, unfinished, ◌>>=◌}

-- A call that does not run out of fuel, and leaves at most `n` bytes of the input.
abbrev pub Within {ℓ} : {V : Type 0} {A : Type ℓ} → ℕ → Ends V A → Type 0
Within n (ends a s) = length s.input ≤ n
Within n exits = Unit {0}
Within n unfinished = ⊥

-- The words of a SUBMIT_3D buffer, and those behind it, are `uint32_t`, and so is its size.
abbrev pub FitsWords : Setup → Body → Type 0
FitsWords env (submit_3d size words) =
    ((i : ℕ) → get_or words i (env.stale i) < u32_mod) × (size < u32_mod)
FitsWords env _ = Unit {0}

module _ {V : Type 0} where
  pub Within-le {ℓ} : {A : Type ℓ} (m n : ℕ) (e : Ends V A) → m ≤ n → Within m e → Within n e
  Within-le m n (ends a s) h k = omega arith
  Within-le m n exits h k = tt
  Within-le m n unfinished h k = k

  pub Within->>= {ℓ κ} :
      {A : Type ℓ} {B : Type κ} (n : ℕ) (e : Ends V A) (f : A → PrState V → Ends V B)
      → Within n e
      → ((a : A) (s : PrState V) → length s.input ≤ n → Within n (f a s))
      → Within n (e >>= f)
  Within->>= n (ends a s) f h k = k a s h
  Within->>= n exits f h k = tt
  Within->>= n unfinished f h k = h

module _ {V : Type 0} (vr : Virgl V) (env : Setup) where
  pub loaded-Within :
      (id : ℕ) (m : List ℕ) (v : V) (s : PrState V) (l : Loaded)
      → Shorter (length s.input) l
      → load_resource_patched s.input m ≡ l
      → (vr.detach_iov id s.virgl).0 ≡ some m
      → Within (length s.input) (Dispatch.load_resource vr env id s)
  loaded-Within id m v s (loaded m' rest) h e d =
      unfold Dispatch.load_resource in rw (d, e, Dispatch.load_resource) h
  loaded-Within id m v s (closed m') h e d =
      unfold Dispatch.load_resource in rw (d, e, Dispatch.load_resource) (omega arith)
  loaded-Within id m v s wrong_patch h e d =
      unfold Dispatch.load_resource in rw (d, e, Dispatch.load_resource) tt

  pub load_resource-Within :
      (id : ℕ) (s : PrState V) → Within (length s.input) (Dispatch.load_resource vr env id s)
  load_resource-Within id s = elim (Option-cases (vr.detach_iov id s.virgl).0) [
    | inl e ↦ unfold Dispatch.load_resource in rw (e, Dispatch.load_resource) (omega arith)
    | inr (m, e) ↦
        loaded-Within id m s.virgl s (load_resource_patched s.input m)
          (load_resource_patched-Shorter s.input m) refl e
  ]

  pub load_transferred-Within :
      (o : Option ℕ) (s : PrState V)
      → Within (length s.input) (Dispatch.load_transferred vr env o s)
  unfolding Dispatch.load_transferred
  load_transferred-Within none s = omega arith
  load_transferred-Within (some id) s = load_resource-Within id s

  pub submit_loads-next :
      (words : List ℕ) (size fuel offset : ℕ) (s : PrState V)
      → offset < size / 4
      → (let buf : ℕ → ℕ = λ i. get_or words (offset + i) (env.stale (offset + i)) in
          Dispatch.submit_loads vr env words size (suc fuel) offset s ≡ (
            Dispatch.load_transferred vr env (Dispatch.transferred vr env buf) s >>= λ _ s'.
            Dispatch.submit_loads vr env words size fuel (add32 offset (buf 0 / 65536 + 1)) s'))
  unfolding Dispatch.submit_loads
  submit_loads-next words size fuel offset s h =
      let more : ltb offset (size / 4) ≡ true = omega tests in rw (more, Dispatch.submit_loads)

  pub submit_loads-end :
      (words : List ℕ) (size fuel offset : ℕ) (s : PrState V)
      → ltb offset (size / 4) ≡ false
      → Dispatch.submit_loads vr env words size (suc fuel) offset s ≡ ends tt s
  unfolding Dispatch.submit_loads
  submit_loads-end words size fuel offset s h = rw (h, Dispatch.submit_loads)

  pub submit_loads-Within :
      (words : List ℕ) (size fuel offset passes n : ℕ) (s : PrState V)
      → ((i : ℕ) → get_or words i (env.stale i) < u32_mod)
      → size < u32_mod
      → fuel + passes ≡ suc (size / 4)
      → passes ≤ offset
      → passes ≤ size / 4
      → length s.input ≤ n
      → Within n (Dispatch.submit_loads vr env words size fuel offset s)
  submit_loads-Within words size zero offset passes n s w z k m q h = absurd (omega arith)
  submit_loads-Within words size (suc fuel) offset passes n s w z k m q h =
      elim (Bool-cases (ltb offset (size / 4))) [
        | inr last ↦ subst (Within n) (sym (submit_loads-end words size fuel offset s last)) h
        | inl more ↦
            let inside : offset < size / 4 = omega (tests, more) in
            let buf : ℕ → ℕ = λ i. get_or words (offset + i) (env.stale (offset + i)) in
            let bound = w (offset + 0) in
            let next = add32 offset (buf 0 / 65536 + 1) in
            subst (Within n) (sym (submit_loads-next words size fuel offset s inside)) (
              Within->>= n (Dispatch.load_transferred vr env (Dispatch.transferred vr env buf) s)
                (λ _ s'. Dispatch.submit_loads vr env words size fuel next s')
                (Within-le (length s.input) n
                  (Dispatch.load_transferred vr env (Dispatch.transferred vr env buf) s) h
                  (load_transferred-Within (Dispatch.transferred vr env buf) s))
                (λ _ s' h'.
                  submit_loads-Within words size fuel next (suc passes) n s' w z (omega arith)
                    (omega arith) (omega arith) h'))
      ]

  pub polled-input : (s : PrState V) → (Dispatch.polled vr env s).input ≡ s.input
  unfolding Dispatch.polled
  polled-input s =
      (write_fences_keeps (record s { virgl = (vr.poll s.virgl).1 }) (vr.poll s.virgl).0).1

  pub fenced-input : (cmd : Cmd) (s : PrState V) → (fenced vr env cmd s).input ≡ s.input
  fenced-input cmd s = elim (Bool-cases (has_bit cmd.flags flag_fence)) [
    | inr free ↦ unfold fenced in rw (free, fenced)
    | inl flag ↦
        elim (Bool-cases (vr.create_fence cmd.fence_id (env.hdr_type cmd.body) s.virgl).0) [
          | inr failed ↦ unfold fenced with_fence in rw (flag, failed, fenced)
          | inl created ↦
              let s' = record (with_fence vr env cmd s) { fence_received = latest vr env cmd s } in
              unfold fenced with_fence in rw (flag, created, fenced) (polled-input s')
        ]
  ]
