-- ===== src/Device/Fences/Exact.antt =====
-- Which waiting answers a walk sends, and which it leaves.
use remote_virtio_gpu.Prelude.{
  ℕ, suc, ◌+◌, ◌≤◌, ◌≡◌, inl, inr, List, [], ◌∷◌, true, false, ◌||◌, arith, ltb, has_bit, length,
  Bool-cases, All, Interleaves, done, first, second,
}
use remote_virtio_gpu.Device.{Waiting, Device}
use remote_virtio_gpu.Device.Fences.{
  flag_vsync, Walk, fences_loop, process_fences, vsync_loop, gpu_device_serve_vsync,
}

-- The fence is reached, and the answer does not wait for the display.
abbrev pub Due : ℕ → Waiting → Type 0
Due fence_id w = (w.hdr.fence_id ≤ fence_id) × (has_bit w.hdr.flags flag_vsync ≡ false)

abbrev pub Waits : ℕ → Waiting → Type 0
Waits fence_id w = (ltb fence_id w.hdr.fence_id || has_bit w.hdr.flags flag_vsync) ≡ true

-- A walk over `ws` that has counted `n` before: it sends what is in P and leaves what is in Q.
pub record Splits (P Q : Waiting → Type 0) (ws : List Waiting) (n : ℕ) (walk : Walk) : Type 0 where
  pub all : Interleaves walk.sent walk.left ws
  pub sent_in : All P walk.sent
  pub left_in : All Q walk.left
  pub count : walk.processed ≡ n + length walk.sent

send_one :
    {P Q : Waiting → Type 0} {ws : List Waiting} {n : ℕ} {walk : Walk} (w : Waiting)
    → P w
    → Splits P Q ws (suc n) walk
    → Splits P Q (w ∷ ws) n (record walk { sent = w ∷ walk.sent })
send_one w p s = record {
  all = first s.all;
  sent_in = (p, s.sent_in);
  left_in = s.left_in;
  count = omega (arith, s.count);
}

leave_one :
    {P Q : Waiting → Type 0} {ws : List Waiting} {n : ℕ} {walk : Walk} (w : Waiting)
    → Q w
    → Splits P Q ws n walk
    → Splits P Q (w ∷ ws) n (record walk { left = w ∷ walk.left })
leave_one w q s = record {
  all = second s.all;
  sent_in = s.sent_in;
  left_in = (q, s.left_in);
  count = s.count;
}

nothing :
    {P Q : Waiting → Type 0} {n : ℕ}
    → Splits P Q [] n (record { sent = []; left = []; processed = n })
nothing = record { all = done; sent_in = tt; left_in = tt; count = omega arith }

fences_loop-Splits :
    (f : ℕ) (ws : List Waiting) (n : ℕ) → Splits (Due f) (Waits f) ws n (fences_loop f ws n)
unfolding fences_loop
fences_loop-Splits f [] n = nothing
fences_loop-Splits f (w ∷ ws) n =
    elim (Bool-cases (ltb f w.hdr.fence_id || has_bit w.hdr.flags flag_vsync)) [
      | inl wait ↦ rw (wait, fences_loop) (leave_one w wait (fences_loop-Splits f ws n))
      | inr due ↦
          rw (due, fences_loop) (send_one w (ground arith) (fences_loop-Splits f ws (suc n)))
    ]

vsync_loop-Splits :
    (ws : List Waiting) (n : ℕ)
    → Splits
        (λ w. has_bit w.hdr.flags flag_vsync ≡ true)
        (λ w. has_bit w.hdr.flags flag_vsync ≡ false)
        ws
        n
        (vsync_loop ws n)
unfolding vsync_loop
vsync_loop-Splits [] n = nothing
vsync_loop-Splits (w ∷ ws) n = elim (Bool-cases (has_bit w.hdr.flags flag_vsync)) [
  | inl b ↦ rw (b, vsync_loop) (send_one w b (vsync_loop-Splits ws (suc n)))
  | inr b ↦ rw (b, vsync_loop) (leave_one w b (vsync_loop-Splits ws n))
]

-- `process_fences` sends, in their order, exactly the waiting answers whose fence is at most the one
-- that is reached and that do not wait for the display; the others keep waiting in their order; the
-- count is that of the answers sent.
pub process_fences_lem :
    (g : Device) (f : ℕ)
    → (let (sent, processed, g') = process_fences g f in
        Interleaves sent g'.async_cmds g.async_cmds
        × All (Due f) sent
        × All (Waits f) g'.async_cmds
        × (processed ≡ length sent))
unfolding process_fences
process_fences_lem g f =
    let s = fences_loop-Splits f g.async_cmds 0 in
    (s.all, s.sent_in, s.left_in, omega (arith, s.count))

-- `gpu_device_serve_vsync` sends, in their order, exactly the answers that wait for the display; the
-- others keep waiting in their order; the count is that of the answers sent.
pub gpu_device_serve_vsync_lem :
    (g : Device)
    → (let (sent, processed, g') = gpu_device_serve_vsync g in
        Interleaves sent g'.async_cmds g.async_cmds
        × All (λ w. has_bit w.hdr.flags flag_vsync ≡ true) sent
        × All (λ w. has_bit w.hdr.flags flag_vsync ≡ false) g'.async_cmds
        × (processed ≡ length sent))
unfolding gpu_device_serve_vsync
gpu_device_serve_vsync_lem g =
    let s = vsync_loop-Splits g.async_cmds 0 in
    (s.all, s.sent_in, s.left_in, omega (arith, s.count))
