-- ===== src/Resource/Table.antt =====
-- rvgpu-res.c: the list of resources that a context keeps, newest first. The pointer that a search
-- returns is the first resource with the id; a write through it changes that one in place.
pub mod Laws
use remote_virtio_gpu.Prelude.{ℕ, List, [], ◌∷◌, Option, none, some, Bool, ◌==◌, if◌then◌else◌}
use remote_virtio_gpu.Resource.Transfer.{ResInfo, Res}

-- `gpu_device_get_res` and `rvgpu_ctx_res_find`
unfoldable pub res_find : ℕ → List Res → Option Res
res_find id [] = none
res_find id (r ∷ rs) = if r.resid == id then some r else res_find id rs

-- `rvgpu_ctx_res_destroy`: with no such resource it only warns.
unfoldable pub res_destroy : ℕ → List Res → List Res
res_destroy id [] = []
res_destroy id (r ∷ rs) = if r.resid == id then rs else r ∷ res_destroy id rs

-- `rvgpu_ctx_res_create`: `memory` says whether `calloc` finds memory; `none` is the answer -1.
unfoldable pub res_create : Bool → ResInfo → ℕ → List Res → Option (List Res)
res_create memory info id rs =
    if memory
    then some (record { resid = id; backing = none; info = record info { bpp = 4 } } ∷ rs)
    else none

-- A write to the resource that the search finds.
unfoldable pub res_update : ℕ → (Res → Res) → List Res → List Res
res_update id f [] = []
res_update id f (r ∷ rs) = if r.resid == id then f r ∷ rs else r ∷ res_update id f rs
