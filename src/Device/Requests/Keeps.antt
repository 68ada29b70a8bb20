-- ===== src/Device/Requests/Keeps.antt =====
-- What the commands of a service keep: the account of the attached memory, and the waiting answers.
use remote_virtio_gpu.Prelude.{
  ℕ, ◌^◌, ◌<◌, ◌==◌, ◌≡◌, refl, inl, inr, List, Option, none, some, Bool-cases, take,
}
use remote_virtio_gpu.Virtio.{
  MemEntry, Resp, Body, resource_create_2d, resource_create_3d, resource_unref, set_scanout,
  submit_3d, transfer_to_host_2d, transfer_to_host_3d, resource_attach_backing,
  resource_detach_backing, ok_nodata,
}
use remote_virtio_gpu.Resource.Transfer.{ResInfo}
use remote_virtio_gpu.Device.{Device}
use remote_virtio_gpu.Device.Backing.{
  gpu_device_create_res, gpu_device_destroy_res, gpu_device_attach, gpu_device_detach,
}
use remote_virtio_gpu.Device.Backing.Account.{Accounted, ShortEntries, entries_total}
use remote_virtio_gpu.Device.Backing.Kept.{
  create-Accounted, destroy-Accounted, detach-Accounted, attach-Accounted,
}
use remote_virtio_gpu.Device.Backing.Quiet.{create_quiet, destroy_quiet, attach_quiet, detach_quiet}
use remote_virtio_gpu.Device.Submit.{
  Env, Run, result, aborted, unfinished, gpu_device_send_res, gpu_device_handle_submit_3d,
}
use remote_virtio_gpu.Device.Service.{
  sending, submitted, serve_body, info_2d, info_3d, transfer_2d, transfer_3d,
}

-- What holds of the result, if there is one.
abbrev pub OnResult {ℓ κ} : {A : Type ℓ} → (A → Type κ) → Run A → Type κ
OnResult P (result a) = P a
OnResult P aborted = Unit {_}
OnResult P unfinished = Unit {_}

-- The lengths of an attachment, as for its account.
abbrev pub FitsBody : Body → Type 0
FitsBody (resource_attach_backing id n mem) =
    ShortEntries (take n mem) × (entries_total (take n mem) < 2 ^ 63)
FitsBody _ = Unit {0}

module _ (env : Env) (P : Device → Type 0) (g : Device) (p : P g) where
  sending-keeps : (o : Option (Resp × List ℕ)) → OnResult (λ e. P e.device) (sending env g o)
  sending-keeps none = tt
  sending-keeps (some (type, out)) = p

  submitted-keeps : (r : Run (Resp × List ℕ)) → OnResult (λ e. P e.device) (submitted env g r)
  submitted-keeps (result (type, out)) = p
  submitted-keeps aborted = tt
  submitted-keeps unfinished = tt

-- A property of the device that the operations on resources keep, and that does not look at the
-- scanouts.
module _ (env : Env) (P : Device → Type 0) (Q : Body → Type 0)
    (scan : (g : Device) (id n : ℕ) → P g → P (record g { scanres = id; scan_id = n }))
    (create : (g : Device) (id : ℕ) (info : ResInfo)
      → P g
      → P (gpu_device_create_res env.memory g id info).1)
    (destroy : (g : Device) (id : ℕ) → P g → P (gpu_device_destroy_res g id).1)
    (attach : (g : Device) (id n : ℕ) (mem : List MemEntry)
      → Q (resource_attach_backing id n mem)
      → P g
      → P (gpu_device_attach env.map_guest env.memory g id mem n).1)
    (detach : (g : Device) (id : ℕ) → P g → P (gpu_device_detach g id).1) where
  serve_body-keeps :
      (g : Device) (b : Body) → Q b → P g → OnResult (λ e. P e.device) (serve_body env g b)
  unfolding serve_body
  serve_body-keeps g (resource_create_2d c) q p = create g c.resource_id (info_2d c) p
  serve_body-keeps g (resource_create_3d c) q p = create g c.resource_id (info_3d c) p
  serve_body-keeps g (resource_unref id) q p = destroy g id p
  serve_body-keeps g (set_scanout n id r) q p = elim (Bool-cases (n == 0)) [
    | inl b ↦ rw b (scan g id n p)
    | inr b ↦ rw b (scan g g.scanres n p)
  ]
  serve_body-keeps g (submit_3d size words) q p =
      submitted-keeps env P g p (gpu_device_handle_submit_3d env g size words ok_nodata)
  serve_body-keeps g (transfer_to_host_2d id r o) q p =
      sending-keeps env P g p (gpu_device_send_res env g id (transfer_2d r o))
  serve_body-keeps g (transfer_to_host_3d t) q p =
      sending-keeps env P g p (gpu_device_send_res env g t.resource_id (transfer_3d t))
  serve_body-keeps g (resource_attach_backing id n mem) q p = attach g id n mem q p
  serve_body-keeps g (resource_detach_backing id) q p = detach g id p
  serve_body-keeps g _ q p = p

pub serve_body-Accounted :
    (env : Env) (g : Device) (b : Body)
    → FitsBody b
    → Accounted g
    → OnResult (λ e. Accounted e.device) (serve_body env g b)
serve_body-Accounted env =
    serve_body-keeps env Accounted FitsBody
      (λ g id n a. record {
        counted = a.counted;
        limited = a.limited;
        limit_small = a.limit_small;
        short = a.short;
        distinct = a.distinct;
      })
      (λ g id info a. create-Accounted env.memory g id info a) destroy-Accounted
      (λ g id n mem q a. attach-Accounted env.map_guest env.memory g id mem n a q.0 q.1)
      detach-Accounted

pub serve_body_quiet :
    (env : Env) (g : Device) (b : Body)
    → OnResult (λ e. e.device.async_cmds ≡ g.async_cmds) (serve_body env g b)
serve_body_quiet env g b =
    serve_body-keeps env (λ g'. g'.async_cmds ≡ g.async_cmds) (λ _. Unit {0}) (λ g' id n p. p)
      (λ g' id info p. rw (create_quiet env.memory g' id info) p)
      (λ g' id p. rw (destroy_quiet g' id) p)
      (λ g' id n mem q p. rw (attach_quiet env.map_guest env.memory g' id mem n) p)
      (λ g' id p. rw (detach_quiet g' id) p) g b tt refl
