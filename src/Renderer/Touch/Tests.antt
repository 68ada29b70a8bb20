-- ===== src/Renderer/Touch/Tests.antt =====
-- Runs of a renderer's touch screen, and its theorems at concrete inputs.
use remote_virtio_gpu.Prelude.{ℕ, ◌≡◌, refl, List, [], ◌∷◌, true, arith}
use remote_virtio_gpu.InputDevice.{
  touch, abs_misc, abs_mt_slot, abs_mt_position_x, abs_mt_position_y, abs_mt_tracking_id,
}
use remote_virtio_gpu.Renderer.Virgl.{WindowBox}
use remote_virtio_gpu.Renderer.Touch.{
  Plane, InputState, find_slot, find_free_slot, rvgpu_in_init, abs_event, touch_event, remove_at,
  rvgpu_in_remove_slot, add_at, rvgpu_in_add_slot, add_each, move_at, rvgpu_in_move_slot,
  rvgpu_in_clear,
}
use remote_virtio_gpu.Renderer.Touch.Queued.{Queued}
use remote_virtio_gpu.Renderer.Touch.Calls.{
  TouchCall, add_slot, move_slot, remove_slot, touch_calls,
}
use remote_virtio_gpu.Renderer.Touch.Undone.{after_send, clear_undoes}

-- A plane that puts a point where it is.
abbrev identity : Plane ℕ ℕ
identity = record { unset = 0; coefficients = λ w f s. 0; place = λ c x y. (x, y) }

abbrev screen : WindowBox
screen = record { x = 0; y = 0; w = 64; h = 64 }

abbrev start : InputState ℕ
start = rvgpu_in_init identity true

-- Two fingers in two windows; the first moves, along one axis only, and goes up.
abbrev two_fingers : List (TouchCall ℕ)
two_fingers =
    add_slot 5 1 screen screen screen
    ∷ add_slot 6 2 screen screen screen
    ∷ move_slot 5 10 20
    ∷ move_slot 5 10 21
    ∷ remove_slot 5
    ∷ []

two_fingers_events :
    (touch_calls identity start two_fingers).iq_touch.events
    ≡ abs_event abs_misc 1
      ∷ abs_event abs_mt_slot 0
      ∷ abs_event abs_mt_tracking_id 0
      ∷ touch_event 1
      ∷ abs_event abs_misc 2
      ∷ abs_event abs_mt_slot 1
      ∷ abs_event abs_mt_tracking_id 1
      ∷ touch_event 1
      ∷ abs_event abs_misc 1
      ∷ abs_event abs_mt_slot 0
      ∷ abs_event abs_mt_position_x 10
      ∷ abs_event abs_mt_position_y 20
      ∷ abs_event abs_mt_position_y 21
      ∷ abs_event abs_mt_tracking_id 4294967295
      ∷ touch_event 0
      ∷ []
unfolding rvgpu_in_init rvgpu_in_add_slot rvgpu_in_move_slot rvgpu_in_remove_slot find_slot
    find_free_slot add_at remove_at move_at add_each
two_fingers_events = refl

clear_undoes_example :
    (let s' =
        rvgpu_in_clear identity true
          (touch_calls identity (after_send identity start) two_fingers)
          touch in
      (s'.slots ≡ (after_send identity start).slots)
      × (s'.last_slot ≡ (after_send identity start).last_slot)
      × (s'.last_window_id ≡ (after_send identity start).last_window_id)
      × (s'.iq_touch.events ≡ []))
clear_undoes_example = clear_undoes identity start two_fingers (omega arith)
