-- ===== src/Renderer/Touch/Undone.antt =====
-- Clearing takes back what was not sent.
use remote_virtio_gpu.Prelude.{◌*◌, ◌<◌, ◌≡◌, refl, ◌∙◌, List, [], true, arith, length, u16_mod}
use remote_virtio_gpu.InputDevice.{touch}
use remote_virtio_gpu.Renderer.Touch.{Plane, InputState, rvgpu_in_send, rvgpu_in_clear}
use remote_virtio_gpu.Renderer.Touch.Calls.{TouchCall, touch_calls, touch_calls-Queued}

module _ {C D : Type 0} (plane : Plane C D) (s : InputState C) where
  abbrev pub after_send : InputState C
  after_send = rvgpu_in_send plane true s touch

  -- What a sending keeps for the clearing, and that it empties the queue.
  send_keeps :
      (after_send.olds ≡ after_send.slots)
      × (after_send.old_slot ≡ after_send.last_slot)
      × (after_send.old_window_id ≡ after_send.last_window_id)
      × (after_send.iq_touch.events ≡ [])
  unfolding rvgpu_in_send
  send_keeps = (refl, refl, refl, refl)

  -- Whatever touches were put into the queue since the last sending, `rvgpu_in_clear` takes them
  -- back: the slots, the slot and the window that a reader is at are those of the sending, and the
  -- queue is empty, so that what the proxy was told and what the renderer remembers agree again. It
  -- is assumed that there was memory for the queue, and that the touches are at most 9362.
  pub clear_undoes :
      (cs : List (TouchCall D))
      → 7 * length cs < u16_mod
      → (let s' = rvgpu_in_clear plane true (touch_calls plane after_send cs) touch in
          (s'.slots ≡ after_send.slots)
          × (s'.last_slot ≡ after_send.last_slot)
          × (s'.last_window_id ≡ after_send.last_window_id)
          × (s'.iq_touch.events ≡ []))
  unfolding rvgpu_in_clear
  clear_undoes cs h =
      let (olds, slot, window, empty) = send_keeps in
      let q = touch_calls-Queued plane after_send cs (rw empty (omega arith)) in
      (q.same_olds ∙ olds, q.same_old_slot ∙ slot, q.same_old_window ∙ window, refl)
