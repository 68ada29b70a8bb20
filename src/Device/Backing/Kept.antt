-- ===== src/Device/Backing/Kept.antt =====
-- Each operation on the resources keeps the account of the attached memory.
use remote_virtio_gpu.Prelude.{
  ℕ, ◌+◌, ◌-◌, ◌%◌, ◌^◌, ◌≤◌, ◌<◌, ◌≡◌, refl, ap, ◌∙◌, inl, inr, List, Option, none, some, Bool,
  true, false, arith, u64_mod, add64, take, ltb, ◌!=◌, ◌&&◌, Option-cases, Bool-cases,
}
use remote_virtio_gpu.Memory.{Iovec}
use remote_virtio_gpu.Virtio.{MemEntry, ok_nodata, err_out_of_memory}
use remote_virtio_gpu.Resource.Transfer.{ResInfo, Res}
use remote_virtio_gpu.Resource.Table.{res_find, res_create, res_update}
use remote_virtio_gpu.Resource.Table.Laws.{
  Distinct, res_destroy-Distinct, res_update-Distinct, res_update_undo,
}
use remote_virtio_gpu.Device.{Device}
use remote_virtio_gpu.Device.Backing.{
  subtract_lens, free_res, gpu_device_create_res, gpu_device_destroy_res, set_backing, map_entries,
  gpu_device_attach, gpu_device_detach, sum_lens, entries,
}
use remote_virtio_gpu.Device.Backing.Account.{
  held_by, held, ShortBacking, AllShort, ShortEntries, entries_total, Accounted, subtract_lens_lem,
  sum_lens_lem, total-map_entries, map_entries-Short, held-res_destroy, held-set_backing,
  res_destroy-AllShort, set_backing-AllShort, find-Short,
}

pub create-Accounted :
    (memory : Bool) (g : Device) (id : ℕ) (info : ResInfo)
    → Accounted g
    → Accounted (gpu_device_create_res memory g id info).1
unfolding gpu_device_create_res res_create
create-Accounted memory g id info a = ground (arith, Option-cases (res_find id g.reslist))

-- What a resource holds is part of what all hold.
held_part :
    (id : ℕ) (rs : List Res) (r : Res) → res_find id rs ≡ some r → held_by r.backing ≤ held rs
held_part id rs r e = omega (arith, held-res_destroy id rs r e)

-- Taking a resource's entries off the account.
subtract_held :
    (g : Device) (id : ℕ) (r : Res)
    → Accounted g
    → res_find id g.reslist ≡ some r
    → subtract_lens g.curr_mem (entries r.backing) ≡ (held g.reslist - held_by r.backing) % u64_mod
subtract_held g id r a e =
    ap (λ c. subtract_lens c (entries r.backing)) a.counted
    ∙ subtract_lens_lem (entries r.backing) (held g.reslist) (find-Short id g.reslist r e a.short)
        (held_part id g.reslist r e)

pub destroy-Accounted :
    (g : Device) (id : ℕ) → Accounted g → Accounted (gpu_device_destroy_res g id).1
unfolding gpu_device_destroy_res free_res
destroy-Accounted g id a = elim (Option-cases (res_find id g.reslist)) [
  | inl e ↦ rw (e, gpu_device_destroy_res) a
  | inr (r, e) ↦
      let less = held-res_destroy id g.reslist r e in
      rw (e, gpu_device_destroy_res)
        (record {
          counted = subtract_held g id r a e ∙ ap (λ n. n % u64_mod) (omega (arith, less));
          limited = λ h. omega (arith, less, a.limited h);
          limit_small = a.limit_small;
          short = res_destroy-AllShort id g.reslist a.short;
          distinct = res_destroy-Distinct id g.reslist a.distinct;
        })
]

-- A list with another backing for a resource.
rebacked :
    (g : Device) (id : ℕ) (b : Option (List Iovec))
    → Accounted g
    → ShortBacking b
    → AllShort (res_update id (set_backing b) g.reslist)
      × Distinct (res_update id (set_backing b) g.reslist)
rebacked g id b a s = (
  set_backing-AllShort id b g.reslist s a.short,
  res_update-Distinct id (set_backing b) (λ r. refl) g.reslist a.distinct,
)

pub detach-Accounted : (g : Device) (id : ℕ) → Accounted g → Accounted (gpu_device_detach g id).1
unfolding gpu_device_detach
detach-Accounted g id a = elim (Option-cases (res_find id g.reslist)) [
  | inl e ↦ rw (e, gpu_device_detach) a
  | inr (r, e) ↦ elim (Option-cases r.backing) [
    | inl f ↦ rw (e, f, gpu_device_detach) a
    | inr (vs, f) ↦
        let less = held-set_backing id none g.reslist r e in
        rw (e, f, gpu_device_detach)
          (record {
            counted =
                (rw f at (subtract_held g id r a e))
                ∙ ap (λ n. n % u64_mod) (omega (arith, less, ap held_by f));
            limited = λ h. omega (arith, less, a.limited h);
            limit_small = a.limit_small;
            short = (rebacked g id none a tt).0;
            distinct = (rebacked g id none a tt).1;
          })
  ]
]

pub set_backing_undo :
    (b : Option (List Iovec)) (r : Res) → r.backing ≡ none → set_backing none (set_backing b r) ≡ r
set_backing_undo b r e = ground arith

-- The steps of `gpu_device_attach` on a resource with no backing.
module _ (map_guest : ℕ → ℕ → ℕ) (g : Device) (id : ℕ) (mem : List MemEntry) (n : ℕ) (r : Res)
    (found : res_find id g.reslist ≡ some r) (bare : r.backing ≡ none) where
  unfoldable pub mapped : Option (List Iovec)
  mapped = some (map_entries map_guest (take n mem))

  unfoldable pub over : Bool
  over = g.max_mem != 0 && ltb g.max_mem (add64 g.curr_mem (sum_lens 0 (take n mem)))

  -- Past the limit the answer is an error, and the device is as it was.
  pub attach_refused :
      over ≡ true → gpu_device_attach map_guest true g id mem n ≡ (err_out_of_memory, g)
  unfolding over gpu_device_attach mapped
  attach_refused h =
      rw (found, bare, h, gpu_device_attach)
        (λ i. (
          err_out_of_memory,
          record g {
            reslist =
                res_update_undo id (set_backing mapped) (set_backing none) g.reslist r (λ x. refl)
                  found (set_backing_undo mapped r bare) i;
          },
        ))

  pub attach_done :
      over ≡ false
      → gpu_device_attach map_guest true g id mem n ≡ (
        ok_nodata,
        record g {
          reslist = res_update id (set_backing mapped) g.reslist;
          curr_mem = add64 g.curr_mem (sum_lens 0 (take n mem));
        },
      )
  unfolding over gpu_device_attach mapped
  attach_done h = rw (found, bare, h, gpu_device_attach) refl

  attach_no_memory : gpu_device_attach map_guest false g id mem n ≡ (err_out_of_memory, g)
  unfolding gpu_device_attach
  attach_no_memory = rw (found, bare, gpu_device_attach) refl

  held_after :
      held (res_update id (set_backing mapped) g.reslist)
      ≡ held g.reslist + entries_total (take n mem)
  unfolding mapped
  held_after = omega (
    arith,
    held-set_backing id mapped g.reslist r found,
    ap held_by bare,
    total-map_entries map_guest (take n mem),
  )

  attached-Accounted :
      Accounted g
      → ShortEntries (take n mem)
      → entries_total (take n mem) < 2 ^ 63
      → over ≡ false
      → Accounted (record g {
        reslist = res_update id (set_backing mapped) g.reslist;
        curr_mem = add64 g.curr_mem (sum_lens 0 (take n mem));
      })
  unfolding over
  attached-Accounted a s k h =
      let sent : sum_lens 0 (take n mem) ≡ entries_total (take n mem) =
        sum_lens_lem (take n mem) 0 (omega arith) ∙ omega arith in
      let lists =
        rebacked g id mapped a (unfold mapped in map_entries-Short map_guest (take n mem) s) in
      record {
        counted = omega (arith, sent, held_after, a.counted);
        limited = λ positive. fits sent positive;
        limit_small = a.limit_small;
        short = lists.0;
        distinct = lists.1;
      }
    where
      fits :
          sum_lens 0 (take n mem) ≡ entries_total (take n mem)
          → 0 < g.max_mem
          → held (res_update id (set_backing mapped) g.reslist) ≤ g.max_mem
      fits sent positive =
          let small : held g.reslist ≤ g.max_mem = a.limited positive in
          let exact : add64 g.curr_mem (sum_lens 0 (take n mem))
              ≡ held g.reslist + entries_total (take n mem) =
            omega (arith, sent, a.counted, a.limit_small, small) in
          let bound : add64 g.curr_mem (sum_lens 0 (take n mem)) ≤ g.max_mem = ground arith in
          omega (arith, held_after, exact, bound)

pub attach-Accounted :
    (m : ℕ → ℕ → ℕ) (memory : Bool) (g : Device) (id : ℕ) (mem : List MemEntry) (n : ℕ)
    → Accounted g
    → ShortEntries (take n mem)
    → entries_total (take n mem) < 2 ^ 63
    → Accounted (gpu_device_attach m memory g id mem n).1
attach-Accounted m memory g id mem n a s k = elim (Option-cases (res_find id g.reslist)) [
  | inl e ↦ unfold gpu_device_attach in rw (e, gpu_device_attach) a
  | inr (r, e) ↦ elim (Option-cases r.backing) [
    | inr (vs, f) ↦ unfold gpu_device_attach in rw (e, f, gpu_device_attach) a
    | inl f ↦ elim (Bool-cases memory) [
      | inr none_left ↦ rw (none_left, attach_no_memory m g id mem n r e f) a
      | inl enough ↦ elim (Bool-cases (over m g id mem n r e f)) [
        | inl past ↦ rw (enough, attach_refused m g id mem n r e f past) a
        | inr within ↦
            rw (enough, attach_done m g id mem n r e f within)
              (attached-Accounted m g id mem n r e f a s k within)
      ]
    ]
  ]
]
