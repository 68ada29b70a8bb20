-- ===== src/InputDevice/Slots/Directed.antt =====
-- The guest reads every event for the slot and the window of its finger.
use remote_virtio_gpu.Prelude.{
  ℕ, ◌+◌, ◌<◌, ◌≡◌, ◌≢◌, refl, sym, ap, ◌∙◌, List, [], ◌∷◌, ◌++◌, some, true, arith, length, ltb,
  ◌==◌, if◌then◌else◌, pair_eq, set, lt→ltb, length-append, ◌≤◌,
}
use remote_virtio_gpu.InputDevice.{
  InputEvent, Touched, Reader, read_event, read_events, abs_misc, abs_mt_slot,
}
use remote_virtio_gpu.InputDevice.Slots.{
  InputDevice, free_slot, event_slot, event_window, window_part, slot_part, last_event, tracked,
  translated, touch_translate,
}

-- What a reader of all that was written for a device keeps.
abbrev pub reader : InputDevice → Reader
reader g = record { slot = g.slot; window_id = g.window_id }

-- What the guest is to read of an event: nothing of an event that only names a slot or a window.
abbrev pub received : ℕ → ℕ → InputEvent → List Touched
received slot window e =
    if e.code == abs_mt_slot
    then []
    else if e.code == abs_misc
    then []
    else record { slot = slot; window_id = window; event = e } ∷ []

module _ (g g1 : InputDevice) (src i max slot : ℕ) (e : InputEvent) where
  tracked_keeps :
      (g : InputDevice)
      → ((tracked g slot e).slot ≡ g.slot) × ((tracked g slot e).window_id ≡ g.window_id)
  unfolding free_slot
  tracked_keeps g = ground arith

  read_last :
      (window : ℕ)
      → (e.code ≡ abs_mt_slot → slot ≡ g.slot → e.value ≡ slot)
      → (e.code ≡ abs_misc → e.value ≡ window)
      → read_event
          (record {
            slot = if e.code == abs_mt_slot then g.slot else slot;
            window_id = if e.code == abs_misc then g.window_id else window;
          })
          (last_event g slot e)
        ≡ (received slot window (last_event g slot e), record { slot = slot; window_id = window })
  unfolding read_event
  read_last window h k = ground arith

  read_first :
      (window : ℕ) (rest : List InputEvent)
      → i + 1 < max
      → window ≡ event_window g src e
      → read_events (reader g) (window_part g window e i max ++ rest)
        ≡ read_events
            (record {
              slot = g.slot;
              window_id = if e.code == abs_misc then g.window_id else window;
            })
            rest
  unfolding read_events read_event
  read_first window rest h k = ground arith

  read_second :
      (j window : ℕ) (rest : List InputEvent)
      → j + 1 < max
      → read_events
          (record { slot = g.slot; window_id = window })
          (slot_part g slot e j max ++ rest)
        ≡ read_events
            (record { slot = if e.code == abs_mt_slot then g.slot else slot; window_id = window })
            rest
  unfolding read_events read_event
  read_second j window rest h = ground arith

  window_part_short : (window : ℕ) → length (window_part g window e i max) ≤ 1
  window_part_short window = ground arith

  slot_part_short : (j : ℕ) → length (slot_part g slot e j max) ≤ 1
  slot_part_short j = ground arith

  -- A list of one event.
  read_one : (r : Reader) (ev : InputEvent) → read_events r (ev ∷ []) ≡ read_event r ev
  unfolding read_events read_event
  read_one r ev = ground arith

  -- Where the guest stands before the event itself.
  abbrev ahead : Reader
  ahead = record {
    slot = if e.code == abs_mt_slot then g.slot else slot;
    window_id = if e.code == abs_misc then g.window_id else event_window g src e;
  }

  translated-last :
      i + 3 < max
      → read_events (reader g) (translated g src e i max slot g1).0
        ≡ read_event ahead (last_event g slot e)
  unfolding translated
  translated-last room =
      let window = event_window g src e in
      let first = window_part g window e i max in
      let j = i + length first in
      let second = slot_part g slot e j max in
      let last = last_event g slot e ∷ [] in
      let s1 = window_part_short window in
      let s2 = slot_part_short j in
      let fits : ltb (i + length (first ++ (second ++ last))) max ≡ true =
        lt→ltb _ _
          (omega (arith, length-append first (second ++ last), length-append second last)) in
      rw fits (
        read_first window (second ++ last) (omega arith) refl
        ∙ read_second j (if e.code == abs_misc then g.window_id else window) last (omega arith)
        ∙ read_one ahead (last_event g slot e))

  -- What the proxy remembers then.
  translated_keeps :
      ((translated g src e i max slot g1).1.slot ≡ slot)
      × ((translated g src e i max slot g1).1.window_id ≡ event_window g src e)
  unfolding translated
  translated_keeps = tracked_keeps (record g1 {
    src_window_id = set g1.src_window_id src (event_window g src e);
    window_id = event_window g src e;
    slot = slot;
  })

  translated-read :
      i + 3 < max
      → (e.code ≡ abs_mt_slot → slot ≡ g.slot → e.value ≡ slot)
      → read_events (reader g) (translated g src e i max slot g1).0 ≡ (
        received slot (event_window g src e) (last_event g slot e),
        reader (translated g src e i max slot g1).1,
      )
  translated-read room h =
      let a = sym translated_keeps.0 in
      let b = sym translated_keeps.1 in
      translated-last room
      ∙ read_last (event_window g src e) h (λ c. ground arith)
      ∙ pair_eq refl (λ k. record { slot = a k; window_id = b k })

-- What the proxy writes for an event of a touch screen, the guest reads as that event alone, for the
-- slot that `get_slot` gave to its finger and for the window that its source names last; and the
-- guest's slot and window are afterwards those that the proxy remembers. Events that name a slot or
-- a window are only remembered. It is assumed that the array has room for three events, and that an
-- event that names a slot does not name, in place of the slot that the guest is at, another number.
pub touch_translate-Directed :
    (g g1 : InputDevice) (src i max slot : ℕ) (e : InputEvent)
    → event_slot g src e ≡ some (slot, g1)
    → i + 3 < max
    → (e.code ≡ abs_mt_slot → slot ≡ g.slot → e.value ≡ slot)
    → (out : List InputEvent) × (g' : InputDevice) × (touch_translate g src e i max
        ≡ some (out, g'))
      × (read_events (reader g) out
          ≡ (received slot (event_window g src e) (last_event g slot e), reader g'))
      × (g'.slot ≡ slot)
      × (g'.window_id ≡ event_window g src e)
touch_translate-Directed g g1 src i max slot e found room h = (
  (translated g src e i max slot g1).0,
  (translated g src e i max slot g1).1,
  (unfold touch_translate in rw (found, touch_translate)),
  translated-read g g1 src i max slot e room h,
  (translated_keeps g g1 src i max slot e).0,
  (translated_keeps g g1 src i max slot e).1,
)

-- An event that names a slot whose number the source gave otherwise than the guest, when the guest is
-- at that slot: the number is passed on as it is, and the guest goes to another slot than the one
-- that the proxy remembers.
pub touch_translate_misdirects :
    (g g1 : InputDevice) (src i max slot : ℕ) (e : InputEvent)
    → event_slot g src e ≡ some (slot, g1)
    → i + 3 < max
    → e.code ≡ abs_mt_slot
    → slot ≡ g.slot
    → e.value ≢ slot
    → (out : List InputEvent) × (g' : InputDevice) × (touch_translate g src e i max
        ≡ some (out, g'))
      × ((read_events (reader g) out).1.slot ≢ g'.slot)
touch_translate_misdirects g g1 src i max slot e found room c s v = (
  (translated g src e i max slot g1).0,
  (translated g src e i max slot g1).1,
  (unfold touch_translate in rw (found, touch_translate)),
  λ q. v (
      sym (stays c s)
      ∙ ap (λ r. r.1.slot) (sym (translated-last g g1 src i max slot e room))
      ∙ q
      ∙ (translated_keeps g g1 src i max slot e).0),
)
  where
    stays :
        e.code ≡ abs_mt_slot
        → slot ≡ g.slot
        → (read_event (ahead g g1 src i max slot e) (last_event g slot e)).1.slot ≡ e.value
    stays c s = unfold read_event in (ground arith)
