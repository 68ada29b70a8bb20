-- ===== src/Device/Backing/Limit.antt =====
-- The account of the attached memory is kept by every operation, and an attachment can be undone.
use remote_virtio_gpu.Prelude.{
  ℕ, ◌+◌, ◌%◌, ◌^◌, ◌<◌, ◌≡◌, ◌≢◌, refl, sym, ap, ◌∙◌, inl, inr, List, Option, none, some, Bool,
  true, arith, u64_mod, add64, take, Bool-cases,
}
use remote_virtio_gpu.Memory.{Iovec}
use remote_virtio_gpu.Virtio.{MemEntry, ok_nodata, err_out_of_memory}
use remote_virtio_gpu.Resource.Transfer.{ResInfo, Res}
use remote_virtio_gpu.Resource.Table.{res_find, res_update}
use remote_virtio_gpu.Resource.Table.Laws.{res_update_undo, res_find-res_update}
use remote_virtio_gpu.Device.{Device}
use remote_virtio_gpu.Device.Backing.{
  subtract_lens, gpu_device_create_res, gpu_device_destroy_res, set_backing, map_entries,
  gpu_device_attach, gpu_device_detach, sum_lens,
}
use remote_virtio_gpu.Device.Backing.Account.{
  held, ShortEntries, entries_total, Accounted, subtract_lens_lem, sum_lens_lem, total-map_entries,
  map_entries-Short,
}
use remote_virtio_gpu.Device.Backing.Kept.{
  create-Accounted, destroy-Accounted, detach-Accounted, attach-Accounted, set_backing_undo, mapped,
  over, attach_refused, attach_done,
}

-- A call that changes the resources or their memory.
pub data Call : Type 0 where
  create : Bool → ℕ → ResInfo → Call
  destroy : ℕ → Call
  attach : Bool → ℕ → List MemEntry → ℕ → Call
  detach : ℕ → Call

-- The lengths are `uint32_t`, and a command's lengths add up to less than 2 ^ 63 bytes.
abbrev pub FitsCall : Call → Type 0
FitsCall (attach memory id mem n) =
    ShortEntries (take n mem) × (entries_total (take n mem) < 2 ^ 63)
FitsCall _ = Unit {0}

module _ (map_guest : ℕ → ℕ → ℕ) where
  pub call : Device → Call → Device
  call g (create memory id info) = (gpu_device_create_res memory g id info).1
  call g (destroy id) = (gpu_device_destroy_res g id).1
  call g (attach memory id mem n) = (gpu_device_attach map_guest memory g id mem n).1
  call g (detach id) = (gpu_device_detach g id).1

-- Every call that creates or destroys a resource, or attaches or detaches its memory, keeps the
-- account: `curr_mem` is the number of bytes attached (modulo 2 ^ 64), the limit is not passed where
-- there is one, and no two resources share an id. It is assumed that the lengths of an attachment
-- are `uint32_t` and add up to less than 2 ^ 63.
pub call-Accounted :
    (map_guest : ℕ → ℕ → ℕ) (c : Call) (g : Device)
    → FitsCall c
    → Accounted g
    → Accounted (call map_guest g c)
unfolding call
call-Accounted m (create memory id info) g f a = create-Accounted memory g id info a
call-Accounted m (destroy id) g f a = destroy-Accounted g id a
call-Accounted m (attach memory id mem n) g f a = attach-Accounted m memory g id mem n a f.0 f.1
call-Accounted m (detach id) g f a = detach-Accounted g id a

-- An attachment that would pass the limit is answered with VIRTIO_GPU_RESP_ERR_OUT_OF_MEMORY, and
-- leaves the device exactly as it was. It is assumed that the account is kept, that the resource is
-- there and has no backing, and that the lengths add up to less than 2 ^ 63.
pub attach_over_limit :
    (map_guest : ℕ → ℕ → ℕ) (g : Device) (id : ℕ) (mem : List MemEntry) (n : ℕ) (r : Res)
    → Accounted g
    → res_find id g.reslist ≡ some r
    → r.backing ≡ none
    → entries_total (take n mem) < 2 ^ 63
    → 0 < g.max_mem
    → g.max_mem < held g.reslist + entries_total (take n mem)
    → gpu_device_attach map_guest true g id mem n ≡ (err_out_of_memory, g)
attach_over_limit m g id mem n r a e f k positive h = attach_refused m g id mem n r e f past
  where
    sent : sum_lens 0 (take n mem) ≡ entries_total (take n mem)
    sent = sum_lens_lem (take n mem) 0 (omega arith) ∙ omega arith

    exact : add64 g.curr_mem (sum_lens 0 (take n mem)) ≡ held g.reslist + entries_total (take n mem)
    exact = omega (arith, sent, a.counted, a.limit_small, a.limited positive)

    past : over m g id mem n r e f ≡ true
    past = unfold over in ground (arith, exact)

detach_lem :
    (g : Device) (id : ℕ) (r : Res) (vs : List Iovec)
    → res_find id g.reslist ≡ some r
    → r.backing ≡ some vs
    → gpu_device_detach g id ≡ (
      ok_nodata,
      record g {
        curr_mem = subtract_lens g.curr_mem vs;
        reslist = res_update id (set_backing none) g.reslist;
      },
    )
unfolding gpu_device_detach
detach_lem g id r vs e f = rw (e, f, gpu_device_detach) refl

-- Detaching what was just attached restores the device. It is assumed that the account is kept, that
-- the resource has no backing before, that the lengths are `uint32_t` and add up to less than
-- 2 ^ 63, and that the attachment succeeds.
pub detach-attach :
    (map_guest : ℕ → ℕ → ℕ) (g : Device) (id : ℕ) (mem : List MemEntry) (n : ℕ) (r : Res)
    → Accounted g
    → res_find id g.reslist ≡ some r
    → r.backing ≡ none
    → ShortEntries (take n mem)
    → entries_total (take n mem) < 2 ^ 63
    → (gpu_device_attach map_guest true g id mem n).0 ≡ ok_nodata
    → gpu_device_detach (gpu_device_attach map_guest true g id mem n).1 id ≡ (ok_nodata, g)
unfolding mapped
detach-attach m g id mem n r a e f s k done = elim (Bool-cases (over m g id mem n r e f)) [
  | inl past ↦
      absurd (refused_ne (ap (λ x. x.0) (sym (attach_refused m g id mem n r e f past)) ∙ done))
  | inr within ↦ rw (attach_done m g id mem n r e f within) (
      detach_lem attached id (set_backing vs r) (map_entries m (take n mem)) found refl ∙ λ i.
      (ok_nodata, record g { curr_mem = account i; reslist = list i }))
]
  where
    vs : Option (List Iovec)
    vs = some (map_entries m (take n mem))

    attached : Device
    attached = record g {
      reslist = res_update id (set_backing vs) g.reslist;
      curr_mem = add64 g.curr_mem (sum_lens 0 (take n mem));
    }

    found : res_find id (res_update id (set_backing vs) g.reslist) ≡ some (set_backing vs r)
    found = res_find-res_update id (set_backing vs) (λ x. refl) g.reslist r e

    list : res_update id (set_backing none) (res_update id (set_backing vs) g.reslist) ≡ g.reslist
    list =
        res_update_undo id (set_backing vs) (set_backing none) g.reslist r (λ x. refl) e
          (set_backing_undo vs r f)

    sent : sum_lens 0 (take n mem) ≡ entries_total (take n mem)
    sent = sum_lens_lem (take n mem) 0 (omega arith) ∙ omega arith

    account :
        subtract_lens (add64 g.curr_mem (sum_lens 0 (take n mem))) (map_entries m (take n mem))
        ≡ g.curr_mem
    account =
        let held' = held g.reslist + entries_total (take n mem) in
        let all : add64 g.curr_mem (sum_lens 0 (take n mem)) ≡ held' % u64_mod =
          omega (arith, sent, a.counted) in
        ap (λ c. subtract_lens c (map_entries m (take n mem))) all
        ∙ subtract_lens_lem (map_entries m (take n mem)) held' (map_entries-Short m (take n mem) s)
            (omega (arith, total-map_entries m (take n mem)))
        ∙ omega (arith, total-map_entries m (take n mem), a.counted)

    refused_ne : err_out_of_memory ≢ ok_nodata
    refused_ne h = cc
