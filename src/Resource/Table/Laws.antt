-- ===== src/Resource/Table/Laws.antt =====
-- Searches after a change of the list, and the ids of a list, each of which stands there once.
use remote_virtio_gpu.Prelude.{ℕ, ◌≡◌, ◌≢◌, refl, List, [], ◌∷◌, none, some, arith, ==_iff}
use remote_virtio_gpu.Resource.Transfer.{Res}
use remote_virtio_gpu.Resource.Table.{res_find, res_destroy, res_update}

-- No two resources have one id.
abbrev pub Distinct : List Res → Type 0
Distinct [] = Unit {0}
Distinct (r ∷ rs) = (res_find r.resid rs ≡ none) × Distinct rs

pub res_find-res_destroy :
    (id : ℕ) (rs : List Res) → Distinct rs → res_find id (res_destroy id rs) ≡ none
unfolding res_find res_destroy
res_find-res_destroy id [] h = refl
res_find-res_destroy id (r ∷ rs) h =
    ground (arith, res_find-res_destroy id rs h.1, ==_iff r.resid id)

pub res_find-res_destroy_ne :
    (id j : ℕ) (rs : List Res) → id ≢ j → res_find j (res_destroy id rs) ≡ res_find j rs
unfolding res_find res_destroy
res_find-res_destroy_ne id j [] h = refl
res_find-res_destroy_ne id j (r ∷ rs) h = ground (arith, res_find-res_destroy_ne id j rs h)

res_find_destroyed :
    (id j : ℕ) (rs : List Res) → res_find j rs ≡ none → res_find j (res_destroy id rs) ≡ none
unfolding res_find res_destroy
res_find_destroyed id j [] h = refl
res_find_destroyed id j (r ∷ rs) h = ground (arith, res_find_destroyed id j rs)

pub res_destroy-Distinct : (id : ℕ) (rs : List Res) → Distinct rs → Distinct (res_destroy id rs)
unfolding res_destroy
res_destroy-Distinct id [] h = tt
res_destroy-Distinct id (r ∷ rs) h =
    ground (arith, res_destroy-Distinct id rs h.1, res_find_destroyed id r.resid rs h.0)

module _ (id : ℕ) (f : Res → Res) (same : (r : Res) → (f r).resid ≡ r.resid) where
  pub res_find-res_update :
      (rs : List Res) (r : Res)
      → res_find id rs ≡ some r
      → res_find id (res_update id f rs) ≡ some (f r)
  unfolding res_find res_update
  res_find-res_update [] r h = ground arith
  res_find-res_update (x ∷ rs) r h = ground (arith, res_find-res_update rs r, same x)

  res_find_updated :
      (j : ℕ) (rs : List Res) → res_find j rs ≡ none → res_find j (res_update id f rs) ≡ none
  unfolding res_find res_update
  res_find_updated j [] h = refl
  res_find_updated j (x ∷ rs) h = ground (arith, res_find_updated j rs, same x)

  pub res_update-Distinct : (rs : List Res) → Distinct rs → Distinct (res_update id f rs)
  unfolding res_update
  res_update-Distinct [] h = tt
  res_update-Distinct (x ∷ rs) h =
      ground (arith, res_update-Distinct rs h.1, res_find_updated x.resid rs h.0, same x)

-- A write that restores what the search found restores the list.
pub res_update_undo :
    (id : ℕ) (f g : Res → Res) (rs : List Res) (r : Res)
    → ((x : Res) → (f x).resid ≡ x.resid)
    → res_find id rs ≡ some r
    → g (f r) ≡ r
    → res_update id g (res_update id f rs) ≡ rs
unfolding res_find res_update
res_update_undo id f g [] r same h e = refl
res_update_undo id f g (x ∷ rs) r same h e =
    ground (arith, res_update_undo id f g rs r same, same x)
