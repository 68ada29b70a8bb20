-- ===== src/Device/Fences/Kept.antt =====
-- What the resource thread keeps of the scanouts, and what was reported.
use mathlib.Core.Path.{subst}
use remote_virtio_gpu.Prelude.{
  ℕ, ◌≤◌, ◌<◌, ◌≡◌, ◌≢◌, ◌⊎◌, ap, ◌∙◌, inl, inr, List, [], ◌∷◌, true, false, arith, length, ◌==◌,
  set, get_or, Bool-cases, All, sym, length-set, ==_iff,
}
use remote_virtio_gpu.Device.Fences.{Reached, least_loop}
use remote_virtio_gpu.Device.Fences.Threads.{Reported, Settled}
use remote_virtio_gpu.Device.Fences.Least.{
  Found, least_loop-All, least_loop-Found, All-at, get_or-set_same, get_or-set_other,
  true_not_false,
}

-- What the resource thread keeps agrees with what was reported.
pub record Tracks (n : ℕ) (r : Reached) (reports : List (ℕ × ℕ)) : Type 0 where
  pub ids_count : length r.ids ≡ n
  pub flags_count : length r.flags ≡ n
  pub told : (j : ℕ) → get_or r.flags j false ≡ true → Reported j (get_or r.ids j 0) reports
  pub untold : (j : ℕ) → get_or r.flags j false ≡ false → get_or r.ids j 0 ≡ 0

module _ (n i id : ℕ) (r : Reached) (reports : List (ℕ × ℕ)) (h : i < n) where
  abbrev pub r' : Reached
  r' = record { ids = set r.ids i id; flags = set r.flags i true }

  pub set-Tracks : Tracks n r reports → Tracks n r' ((i, id) ∷ reports)
  set-Tracks t = record {
    ids_count = length-set r.ids i id ∙ t.ids_count;
    flags_count = length-set r.flags i true ∙ t.flags_count;
    told = λ j e. elim (Bool-cases (j == i)) [
      | inl same ↦
          let here' : j ≡ i = (==_iff j i).0 same in
          inl (
            here',
            ap (λ k. get_or (set r.ids i id) k 0) here'
                ∙ get_or-set_same r.ids i id 0 (omega (arith, h, t.ids_count)),
          )
      | inr differs ↦
          let away = away_from j differs in
          inr (
            subst (λ f. Reported j f reports) (sym (get_or-set_other r.ids i j id 0 away))
              (t.told j (sym (get_or-set_other r.flags i j true false away) ∙ e)))
    ];
    untold = λ j e. elim (Bool-cases (j == i)) [
      | inl same ↦
          let here' : j ≡ i = (==_iff j i).0 same in
          absurd (
            true_not_false _
              (ap (λ k. get_or (set r.flags i true) k false) here'
                ∙ get_or-set_same r.flags i true false (omega (arith, h, t.flags_count)))
              e)
      | inr differs ↦
          let away = away_from j differs in
          get_or-set_other r.ids i j id 0 away
          ∙ t.untold j (sym (get_or-set_other r.flags i j true false away) ∙ e)
    ];
  }
    where
      away_from : (j : ℕ) → (j == i) ≡ false → j ≢ i
      away_from j differs p = ground (arith, ==_iff j i)

  -- The fence that is written to the pipe.
  pub written-Settled :
      Tracks n r' ((i, id) ∷ reports)
      → (let p = least_loop 0 (set r.ids i id) id i in
          get_or (set r.flags i true) p.1 false ≡ true → Settled n ((i, id) ∷ reports) p.0)
  written-Settled t reported = record {
    source = p.1;
    by_source = from (least_loop-Found 0 ids id i);
    by_all = λ j k.
        let below =
          All-at p.0 ids j (omega (arith, k, t.ids_count)) (least_loop-All 0 ids id i).1 in
        elim (Bool-cases (get_or (set r.flags i true) j false)) [
          | inl flagged ↦ inr (get_or ids j 0, t.told j flagged, below)
          | inr unflagged ↦
              let none_yet = t.untold j unflagged in inl (omega (arith, below, none_yet))
        ];
  }
    where
      ids : List ℕ
      ids = set r.ids i id

      p : ℕ × ℕ
      p = least_loop 0 ids id i

      from : Found 0 ids id i p → Reported p.1 p.0 ((i, id) ∷ reports)
      from (inl (e, f)) = inl (f, e)
      from (inr (k, inside, e, f)) =
          let same : p.1 ≡ k = omega (arith, f) in
          subst (λ x. Reported p.1 x ((i, id) ∷ reports)) (ap (λ x. get_or ids x 0) same ∙ sym e)
            (t.told p.1 reported)

-- What was settled stays so.
pub Settled-more :
    (n : ℕ) (reports : List (ℕ × ℕ)) (r : ℕ × ℕ) (pipe : List ℕ)
    → All (Settled n reports) pipe
    → All (Settled n (r ∷ reports)) pipe
Settled-more n reports r [] a = tt
Settled-more n reports r (f ∷ pipe) (a, rest) = (
  record { source = a.source; by_source = inr a.by_source; by_all = λ j h. later (a.by_all j h) },
  Settled-more n reports r pipe rest,
)
  where
    later :
        {j : ℕ}
        → (f ≡ 0) ⊎ ((id : ℕ) × Reported j id reports × (f ≤ id))
        → (f ≡ 0) ⊎ ((id : ℕ) × Reported j id (r ∷ reports) × (f ≤ id))
    later (inl e) = inl e
    later (inr (id, told, le)) = inr (id, inr told, le)
