-- ===== src/Device/Backing/Account.antt =====
-- The account of the guest memory that is attached: what each part of the code adds to it.
use mathlib.Core.Option.{some-injective}
use mathlib.Core.Path.{subst}
use remote_virtio_gpu.Prelude.{
  ℕ, ◌+◌, ◌-◌, ◌%◌, ◌^◌, ◌≤◌, ◌<◌, ◌≡◌, refl, ap, ◌∙◌, inl, inr, List, [], ◌∷◌, Option, some, arith,
  u32_mod, u64_mod, add64, sub64, ◌==◌, Bool-cases,
}
use remote_virtio_gpu.Memory.{Iovec, total}
use remote_virtio_gpu.Virtio.{MemEntry}
use remote_virtio_gpu.Resource.Transfer.{Res}
use remote_virtio_gpu.Resource.Table.{res_find, res_destroy, res_update}
use remote_virtio_gpu.Resource.Table.Laws.{Distinct}
use remote_virtio_gpu.Device.{Device}
use remote_virtio_gpu.Device.Backing.{subtract_lens, sum_lens, set_backing, map_entries, entries}

-- The bytes that a resource, and all resources, hold.
abbrev pub held_by : Option (List Iovec) → ℕ
held_by b = total (entries b)

abbrev pub held : List Res → ℕ
held [] = 0
held (r ∷ rs) = held_by r.backing + held rs

-- Each length fits in a `uint32_t`.
abbrev pub Short : List Iovec → Type 0
Short [] = Unit {0}
Short (v ∷ vs) = (v.iov_len < u32_mod) × Short vs

abbrev pub ShortBacking : Option (List Iovec) → Type 0
ShortBacking b = Short (entries b)

abbrev pub AllShort : List Res → Type 0
AllShort [] = Unit {0}
AllShort (r ∷ rs) = ShortBacking r.backing × AllShort rs

abbrev pub ShortEntries : List MemEntry → Type 0
ShortEntries [] = Unit {0}
ShortEntries (e ∷ es) = (e.length < u32_mod) × ShortEntries es

abbrev pub entries_total : List MemEntry → ℕ
entries_total [] = 0
entries_total (e ∷ es) = e.length + entries_total es

-- `curr_mem` counts the bytes held, as far as a `size_t` counts; with a limit it is not passed; and
-- no id is used twice.
pub record Accounted (g : Device) : Type 0 where
  pub counted : g.curr_mem ≡ held g.reslist % u64_mod
  pub limited : 0 < g.max_mem → held g.reslist ≤ g.max_mem
  pub limit_small : g.max_mem < 2 ^ 63
  pub short : AllShort g.reslist
  pub distinct : Distinct g.reslist

pub subtract_lens_lem :
    (vs : List Iovec) (h : ℕ)
    → Short vs
    → total vs ≤ h
    → subtract_lens (h % u64_mod) vs ≡ (h - total vs) % u64_mod
unfolding subtract_lens
subtract_lens_lem [] h s k = ap (λ n. n % u64_mod) (omega arith)
subtract_lens_lem (v ∷ vs) h (s, ss) k =
    ap (λ c. subtract_lens c vs) one
    ∙ subtract_lens_lem vs (h - v.iov_len) ss (omega arith)
    ∙ ap (λ n. n % u64_mod) (omega arith)
  where
    one : sub64 (h % u64_mod) v.iov_len ≡ (h - v.iov_len) % u64_mod
    one = omega arith

pub sum_lens_lem :
    (es : List MemEntry) (sent : ℕ)
    → sent + entries_total es < u64_mod
    → sum_lens sent es ≡ sent + entries_total es
unfolding sum_lens
sum_lens_lem [] sent h = omega arith
sum_lens_lem (e ∷ es) sent h =
    let next : add64 sent e.length ≡ sent + e.length = omega arith in
    rw next (sum_lens_lem es (sent + e.length) (omega arith) ∙ omega arith)

pub total-map_entries :
    (m : ℕ → ℕ → ℕ) (es : List MemEntry) → total (map_entries m es) ≡ entries_total es
total-map_entries m [] = refl
total-map_entries m (e ∷ es) = omega (arith, total-map_entries m es)

pub map_entries-Short :
    (m : ℕ → ℕ → ℕ) (es : List MemEntry) → ShortEntries es → Short (map_entries m es)
map_entries-Short m [] h = tt
map_entries-Short m (e ∷ es) (h, hs) = (h, map_entries-Short m es hs)

-- What the changes of the list do to the bytes held.
pub held-res_destroy :
    (id : ℕ) (rs : List Res) (r : Res)
    → res_find id rs ≡ some r
    → held (res_destroy id rs) + held_by r.backing ≡ held rs
unfolding res_find res_destroy
held-res_destroy id [] r h = ground arith
held-res_destroy id (x ∷ rs) r h = ground (arith, held-res_destroy id rs r)

pub held-set_backing :
    (id : ℕ) (b : Option (List Iovec)) (rs : List Res) (r : Res)
    → res_find id rs ≡ some r
    → held (res_update id (set_backing b) rs) + held_by r.backing ≡ held rs + held_by b
unfolding res_find res_update
held-set_backing id b [] r h = ground arith
held-set_backing id b (x ∷ rs) r h = ground (arith, held-set_backing id b rs r)

pub res_destroy-AllShort : (id : ℕ) (rs : List Res) → AllShort rs → AllShort (res_destroy id rs)
unfolding res_destroy
res_destroy-AllShort id [] h = tt
res_destroy-AllShort id (x ∷ rs) (h, hs) = ground (arith, res_destroy-AllShort id rs hs)

pub set_backing-AllShort :
    (id : ℕ) (b : Option (List Iovec)) (rs : List Res)
    → ShortBacking b
    → AllShort rs
    → AllShort (res_update id (set_backing b) rs)
unfolding res_update
set_backing-AllShort id b [] s h = tt
set_backing-AllShort id b (x ∷ rs) s (h, hs) = ground (arith, set_backing-AllShort id b rs s hs)

pub find-Short :
    (id : ℕ) (rs : List Res) (r : Res)
    → res_find id rs ≡ some r
    → AllShort rs
    → ShortBacking r.backing
unfolding res_find
find-Short id [] r h s = ground arith
find-Short id (x ∷ rs) r h (s, ss) = elim (Bool-cases (x.resid == id)) [
  | inl hit ↦ subst (λ y. ShortBacking y.backing) (some-injective x r (rw hit at h)) s
  | inr miss ↦ find-Short id rs r (rw miss at h) ss
]
