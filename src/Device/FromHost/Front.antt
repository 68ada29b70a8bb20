-- ===== src/Device/FromHost/Front.antt =====
-- A place in an array of buffers: the buffers that are left, and the number of bytes before them.
use mathlib.Core.Path.{subst}
use remote_virtio_gpu.Prelude.{
  ℕ, ◌+◌, ◌-◌, ◌≤◌, ◌<◌, ◌≡◌, refl, List, [], ◌∷◌, arith, Bool-cases, inl, inr, ltb, u64_mod, add64,
}
use remote_virtio_gpu.Memory.{Memory, Iovec, total}
use remote_virtio_gpu.Iov.Scatter.{Separate}
use remote_virtio_gpu.Device.FromHost.Box.{find_line}
use remote_virtio_gpu.Device.FromHost.Update.{Updated, Updated-skip}

-- The walk from `vs` at `base` to `ws` at `base'`.
pub data Front : List Iovec → ℕ → List Iovec → ℕ → Type 0 where
  here : {vs : List Iovec} {base : ℕ} → Front vs base vs base
  there :
      {v : Iovec} {vs ws : List Iovec} {base base' : ℕ}
      → Front vs (base + v.iov_len) ws base'
      → Front (v ∷ vs) base ws base'

pub Front-trans :
    {us vs ws : List Iovec} {a b c : ℕ} → Front us a vs b → Front vs b ws c → Front us a ws c
Front-trans here g = g
Front-trans (there f) g = there (Front-trans f g)

pub Front-le : {vs ws : List Iovec} {a b : ℕ} → Front vs a ws b → a ≤ b
Front-le here = omega arith
Front-le (there f) = omega (arith, Front-le f)

pub Front-total : {vs ws : List Iovec} {a b : ℕ} → Front vs a ws b → a + total vs ≡ b + total ws
Front-total here = refl
Front-total (there f) = omega (arith, Front-total f)

pub Front-Separate : {vs ws : List Iovec} {a b : ℕ} → Front vs a ws b → Separate vs → Separate ws
Front-Separate here s = s
Front-Separate (there f) (a, s) = Front-Separate f s

-- What is written behind the place is written into the whole array.
pub Front-Updated :
    {vs ws : List Iovec} {a b : ℕ} (mem m : Memory) (pos : ℕ) (bytes : List ℕ)
    → Front vs a ws b
    → Separate vs
    → b ≤ pos
    → Updated mem ws (pos - b) bytes m
    → Updated mem vs (pos - a) bytes m
Front-Updated mem m pos bytes here s h u = u
Front-Updated {a = a} {b = b} mem m pos bytes (there {v = v} {vs = vs} f) (x, s) h u =
    let le = Front-le f in
    let e : (pos - (a + v.iov_len)) ≡ pos - a - v.iov_len = omega arith in
    Updated-skip mem v vs (pos - a) bytes m x (omega (arith, le))
      (subst (λ n. Updated mem vs n bytes m) e (Front-Updated mem m pos bytes f s h u))

-- The position lies in the first of the buffers, or at its end.
abbrev pub Located : ℕ → List Iovec → ℕ → Type 0
Located pos [] base = Unit {0}
Located pos (v ∷ vs) base = pos ≤ base + v.iov_len

-- `find_line` finds the buffer.
pub find_line-Located :
    (vs : List Iovec) (base pos : ℕ)
    → base ≤ pos
    → base + total vs < u64_mod
    → Front vs base (find_line pos vs base).0 (find_line pos vs base).1
      × ((find_line pos vs base).1 ≤ pos)
      × Located pos (find_line pos vs base).0 (find_line pos vs base).1
unfolding find_line
find_line-Located [] base pos h k = (here, h, tt)
find_line-Located (v ∷ vs) base pos h k =
    let e : add64 base v.iov_len ≡ base + v.iov_len = omega arith in
    rw e (elim (Bool-cases (ltb pos (base + v.iov_len))) [
      | inl inside ↦ rw inside (here, h, ground arith)
      | inr past ↦ rw past (
          let (f, le, l) =
            find_line-Located vs (base + v.iov_len) pos (ground arith) (omega arith) in
          (there f, le, l))
    ])
