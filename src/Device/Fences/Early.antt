-- ===== src/Device/Fences/Early.antt =====
-- No answer is sent before each scanout has reached its fence, in any interleaving of the threads.
use mathlib.Core.Path.{subst}
use remote_virtio_gpu.Prelude.{
  ℕ, ◌≤◌, ◌<◌, ◌≡◌, refl, ap, ◌∙◌, List, [], ◌∷◌, ◌++◌, none, some, Bool, true, false, arith,
  length, set, get_or, All, sym, if◌then◌else◌,
}
use remote_virtio_gpu.Device.{Waiting}
use remote_virtio_gpu.Device.Fences.{Reached, least_loop, recv_fence}
use remote_virtio_gpu.Device.Fences.Exact.{Due, process_fences_lem}
use remote_virtio_gpu.Device.Fences.Threads.{
  World, Step, receive, serve, other, into_pipe, Reachable, here, step, Settled, Fresh,
}
use remote_virtio_gpu.Device.Fences.Least.{get_or-replicate, length-replicate, true_not_false}
use remote_virtio_gpu.Device.Fences.Kept.{Tracks, set-Tracks, written-Settled, Settled-more}

All-end : (P : ℕ → Type 0) (xs : List ℕ) (x : ℕ) → All P xs → P x → All P (xs ++ (x ∷ []))
All-end P [] x a p = (p, tt)
All-end P (y ∷ ys) x (a, rest) p = (a, All-end P ys x rest p)

-- The invariant of the two threads.
record Held (n : ℕ) (w : World) : Type 0 where
  tracks : Tracks n w.reached w.reports
  settled : All (Settled n w.reports) w.pipe

recv_fence-Held :
    (n i id : ℕ) (w : World)
    → i < n
    → Held n w
    → Held n (record w {
      reached = (recv_fence i id w.reached).1;
      reports = (i, id) ∷ w.reports;
      pipe = into_pipe (recv_fence i id w.reached).0 w.pipe;
    })
unfolding recv_fence
recv_fence-Held n i id w h held = record { tracks = tracks'; settled = settled' }
  where
    r : Reached
    r = w.reached

    p : ℕ × ℕ
    p = least_loop 0 (set r.ids i id) id i

    tracks' :
        Tracks n (record { ids = set r.ids i id; flags = set r.flags i true }) ((i, id) ∷ w.reports)
    tracks' = set-Tracks n i id r w.reports h held.tracks

    old : All (Settled n ((i, id) ∷ w.reports)) w.pipe
    old = Settled-more n w.reports (i, id) w.pipe held.settled

    choose :
        (b : Bool)
        → (b ≡ true → Settled n ((i, id) ∷ w.reports) p.0)
        → All (Settled n ((i, id) ∷ w.reports)) (into_pipe (if b then some p.0 else none) w.pipe)
    choose true s = All-end (Settled n ((i, id) ∷ w.reports)) w.pipe p.0 old (s refl)
    choose false s = old

    settled' :
        All
          (Settled n ((i, id) ∷ w.reports))
          (into_pipe (if get_or (set r.flags i true) p.1 false then some p.0 else none) w.pipe)
    settled' =
        choose (get_or (set r.flags i true) p.1 false)
          (written-Settled n i id r w.reports h tracks')

Fresh-Held : (n : ℕ) (w : World) → Fresh n w → Held n w
Fresh-Held n w f = record {
  tracks = record {
    ids_count = ap length f.no_ids ∙ length-replicate n 0;
    flags_count = ap length f.no_flags ∙ length-replicate n false;
    told = λ j e.
        absurd
          (true_not_false _ e (ap (λ l. get_or l j false) f.no_flags ∙ get_or-replicate n j false));
    untold = λ j e. ap (λ l. get_or l j 0) f.no_ids ∙ get_or-replicate n j 0;
  };
  settled = subst (All (Settled n w.reports)) (sym f.no_fences) tt;
}

Reachable-Held : (n : ℕ) (start w : World) → Fresh n start → Reachable start w → Held n w
Reachable-Held n start w fresh here = Fresh-Held n start fresh
Reachable-Held n start w fresh (step before s) = held s (Reachable-Held n start _ fresh before)
  where
    held : {a b : World} {sent : List Waiting} → Step a sent b → Held n a → Held n b
    held (receive {w = a} i id h) x =
        recv_fence-Held n i id a (omega (arith, h, x.tracks.ids_count)) x
    held (serve {w = a} f pipe e) x = record {
      tracks = x.tracks;
      settled = (subst (All (Settled n a.reports)) e x.settled).1;
    }
    held (other g) x = record { tracks = x.tracks; settled = x.settled }

-- An answer is sent for a fence that is settled.
abbrev pub InTime : ℕ → World → Waiting → Type 0
InTime n w v = (f : ℕ) × (v.hdr.fence_id ≤ f) × Settled n w.reports f

Due-InTime :
    (n f : ℕ) (w : World) (ws : List Waiting)
    → Settled n w.reports f
    → All (Due f) ws
    → All (InTime n w) ws
Due-InTime n f w [] s d = tt
Due-InTime n f w (v ∷ ws) s (d, ds) = ((f, d.0, s), Due-InTime n f w ws s ds)

-- In any interleaving of the two threads, from the start of the resource thread with `n` scanouts on,
-- an answer that is sent for a fence belongs to a command whose fence is at most one that a scanout
-- has reported, and that each of the scanouts has reported, or a later one, unless it is the fence 0,
-- which the code takes for reported by all.
pub no_early_answer :
    (n : ℕ) (start w w' : World) (sent : List Waiting)
    → Fresh n start
    → Reachable start w
    → Step w sent w'
    → All (InTime n w) sent
no_early_answer n start w w' sent fresh before s = late s (Reachable-Held n start w fresh before)
  where
    late : {a b : World} {vs : List Waiting} → Step a vs b → Held n a → All (InTime n a) vs
    late (receive i id h) x = tt
    late (serve {w = a} f pipe e) x =
        Due-InTime n f a _ (subst (All (Settled n a.reports)) e x.settled).0
          (process_fences_lem a.device f).1
    late (other g) x = tt
