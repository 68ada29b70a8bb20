-- ===== src/InputDevice/Slots/Tests.antt =====
-- Runs of the proxy's touch screen, and its theorems at concrete inputs.
use remote_virtio_gpu.Prelude.{
  ℕ, zero, suc, ◌≡◌, ◌≢◌, refl, inr, List, [], ◌∷◌, none, some, arith, replicate,
}
use remote_virtio_gpu.InputDevice.{InputEvent, read_events, abs_mt_slot, abs_mt_position_x}
use remote_virtio_gpu.InputDevice.Slots.{
  InputSlot, InputDevice, slot_scan, get_slot, get_current_slot, touch_translate, event_slot,
  touch_max_slots,
}
use remote_virtio_gpu.InputDevice.Slots.Search.{Holds}
use remote_virtio_gpu.InputDevice.Slots.Fingers.{Distinct, Assigned, get_slot-Assigned}
use remote_virtio_gpu.InputDevice.Slots.Directed.{
  reader, touch_translate-Directed, touch_translate_misdirects,
}

abbrev no_finger : InputSlot
no_finger = record { src = none; slot = 0 }

-- A device at its start.
abbrev fresh : InputDevice
fresh = record {
  slot = 0;
  slots = replicate touch_max_slots no_finger;
  src_slots = replicate 16 0;
  src_window_id = replicate 16 0;
  tracking_id = 0;
  window_id = 0;
}

-- The finger 0 of the source 0 has the slot 0, and the guest is at slot 1, which is free.
abbrev one_finger : InputDevice
one_finger = record fresh {
  slot = 1;
  slots = record { src = some 0; slot = 0 } ∷ replicate 63 no_finger;
}

free_nobody : (n i src m : ℕ) → ¬ Holds (replicate n no_finger) i src m
free_nobody zero i src m h = cc (h.at_place)
free_nobody (suc n) zero src m h = cc (h.at_place, h.its_src)
free_nobody (suc n) (suc i) src m h =
    free_nobody n i src m (record {
      entry = h.entry;
      at_place = h.at_place;
      its_src = h.its_src;
      its_slot = h.its_slot;
    })

fresh-Distinct : Distinct fresh.slots
fresh-Distinct i j src n h k = absurd (free_nobody touch_max_slots i src n h)

get_slot-Assigned_example :
    (i : ℕ) × (g' : InputDevice) × (get_slot fresh 2 7 ≡ some (i, g')) × Assigned fresh g' 2 7 i
get_slot-Assigned_example =
    get_slot-Assigned fresh 2 7 fresh-Distinct 0 (omega arith)
      (inr (record { entry = no_finger; at_place = refl; no_src = refl }))

abbrev event : ℕ → ℕ → InputEvent
event code value = record { type = 3; code = code; value = value }

-- The finger 0 of the source 0 moves again: the guest is told of its slot.
moves : event_slot one_finger 0 (event abs_mt_position_x 5) ≡ some (0, one_finger)
unfolding get_slot get_current_slot slot_scan
moves = refl

touch_translate-Directed_example :
    (out : List InputEvent) × (g' : InputDevice) × (touch_translate one_finger 0
        (event abs_mt_position_x 5)
        0
        100
      ≡ some (out, g'))
    × (read_events (reader one_finger) out
        ≡ (record { slot = 0; window_id = 0; event = event abs_mt_position_x 5 } ∷ [], reader g'))
    × (g'.slot ≡ 0)
    × (g'.window_id ≡ 0)
touch_translate-Directed_example =
    touch_translate-Directed one_finger one_finger 0 0 100 0 (event abs_mt_position_x 5) moves
      (omega arith) (λ c s. absurd (omega (arith, c)))

-- The finger 0 of the source 1 comes down, and gets the slot 1, where the guest is: the guest is sent
-- to slot 0, that of the finger of the source 0.
abbrev other_finger : InputDevice
other_finger = record one_finger {
  slots =
      record { src = some 0; slot = 0 }
      ∷ record { src = some 1; slot = 0 }
      ∷ replicate 62 no_finger;
}

comes_down : event_slot one_finger 1 (event abs_mt_slot 0) ≡ some (1, other_finger)
unfolding get_slot get_current_slot slot_scan
comes_down = refl

touch_translate_misdirects_example :
    (out : List InputEvent) × (g' : InputDevice) × (touch_translate one_finger 1
        (event abs_mt_slot 0)
        0
        100
      ≡ some (out, g'))
    × ((read_events (reader one_finger) out).1.slot ≢ g'.slot)
touch_translate_misdirects_example =
    touch_translate_misdirects one_finger other_finger 1 0 100 1 (event abs_mt_slot 0) comes_down
      (omega arith) refl refl (λ h. absurd (omega (arith, h)))
