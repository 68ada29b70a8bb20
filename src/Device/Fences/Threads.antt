-- ===== src/Device/Fences/Threads.antt =====
-- The thread of the resources and the device, with the pipe of the fences between them, as steps.
use remote_virtio_gpu.Prelude.{
  ℕ, ◌≤◌, ◌<◌, ◌≡◌, ◌⊎◌, List, [], ◌∷◌, ◌++◌, Option, none, some, false, length, replicate,
}
use remote_virtio_gpu.Device.{Waiting, Device}
use remote_virtio_gpu.Device.Fences.{process_fences, Reached, recv_fence}

-- The device, what the resource thread keeps of the scanouts, all fences that they reported, each with
-- its scanout, and the fences in the pipe between the threads.
pub record World : Type 0 where
  pub device : Device
  pub reached : Reached
  pub reports : List (ℕ × ℕ)
  pub pipe : List ℕ

abbrev pub into_pipe : Option ℕ → List ℕ → List ℕ
into_pipe none pipe = pipe
into_pipe (some f) pipe = pipe ++ (f ∷ [])

-- A step, with the answers that it sends.
pub data Step : World → List Waiting → World → Type 0 where
  -- The resource thread receives a fence of scanout `i`.
  receive :
      {w : World} (i id : ℕ)
      → i < length w.reached.ids
      → Step w [] (record w {
        reached = (recv_fence i id w.reached).1;
        reports = (i, id) ∷ w.reports;
        pipe = into_pipe (recv_fence i id w.reached).0 w.pipe;
      })
  -- The device reads a fence from the pipe.
  serve :
      {w : World} (f : ℕ) (pipe : List ℕ)
      → w.pipe ≡ f ∷ pipe
      → Step w
          (process_fences w.device f).0
          (record w { device = (process_fences w.device f).2; pipe = pipe })
  -- The device does something else.
  other : {w : World} (g : Device) → Step w [] (record w { device = g })

-- By steps.
pub data Reachable (start : World) : World → Type 0 where
  here : Reachable start start
  step :
      {w w' : World} {sent : List Waiting} → Reachable start w → Step w sent w' → Reachable start w'

-- Scanout `i` has reported the fence `f`.
abbrev pub Reported : ℕ → ℕ → List (ℕ × ℕ) → Type 0
Reported i f [] = ⊥
Reported i f (r ∷ rs) = ((i ≡ r.0) × (f ≡ r.1)) ⊎ Reported i f rs

-- One of `n` scanouts has reported the fence `f`, and, unless it is 0, each of them has reported it or
-- a later one.
pub record Settled (n : ℕ) (reports : List (ℕ × ℕ)) (f : ℕ) : Type 0 where
  pub source : ℕ
  pub by_source : Reported source f reports
  pub by_all : (j : ℕ) → j < n → (f ≡ 0) ⊎ ((id : ℕ) × Reported j id reports × (f ≤ id))

-- The start of the resource thread, with `n` scanouts.
pub record Fresh (n : ℕ) (w : World) : Type 0 where
  pub no_ids : w.reached.ids ≡ replicate n 0
  pub no_flags : w.reached.flags ≡ replicate n false
  pub no_reports : w.reports ≡ []
  pub no_fences : w.pipe ≡ []
