-- ===== src/InputDevice/Slots.antt =====
-- rvgpu-input-device.c: the slots of the touch screen that the proxy shows to its guest, and the
-- translation of the events that the renderers send.
pub mod Search
pub mod Fingers
pub mod Directed
pub mod Messages
mod Tests
use remote_virtio_gpu.Prelude.{
  ℕ, zero, suc, ◌+◌, ◌-◌, ◌%◌, List, [], ◌∷◌, ◌++◌, Option, none, some, Bool, true, false, not,
  ◌&&◌, length, set, get_or, ltb, ◌==◌, ◌!=◌, if◌then◌else◌, u16_mod,
}
use remote_virtio_gpu.InputDevice.{
  InputEvent, InputDev, touch, other_dev, ev_abs, abs_misc, abs_mt_slot, abs_mt_tracking_id,
  minus_one,
}

-- `struct input_slot`; `none` is the source -1.
pub record InputSlot : Type 0 where
  pub src : Option ℕ
  pub slot : ℕ

-- `struct input_device`, without the backend and the files. `slots` has TOUCH_MAX_SLOTS entries,
-- `src_slots` and `src_window_id` have MAX_HOSTS.
pub record InputDevice : Type 0 where
  pub slot : ℕ
  pub slots : List InputSlot
  pub src_slots : List ℕ
  pub src_window_id : List ℕ
  pub tracking_id : ℕ
  pub window_id : ℕ

abbrev pub touch_max_slots : ℕ
touch_max_slots = 64

abbrev pub max_hosts : ℕ
max_hosts = 16

abbrev pub is_src : Option ℕ → ℕ → Bool
is_src none src = false
is_src (some n) src = n == src

abbrev pub is_free : Option ℕ → Bool
is_free none = true
is_free (some n) = false

-- How the loop of `get_slot` ends: at the slot that has the source's slot already, or with the first
-- free slot, or without.
pub data Scan : Type 0 where
  taken first_free : ℕ → Scan
  full : Scan

abbrev pub scanned : Option ℕ → Scan
scanned none = full
scanned (some k) = first_free k

abbrev pub or_first : Option ℕ → Bool → ℕ → Option ℕ
or_first none true i = some i
or_first none false i = none
or_first (some k) b i = some k

unfoldable pub slot_scan : List InputSlot → ℕ → ℕ → ℕ → Option ℕ → Scan
slot_scan [] src src_slot i free = scanned free
slot_scan (s ∷ ss) src src_slot i free =
    let rest = slot_scan ss src src_slot (suc i) (or_first free (is_free s.src) i) in
    if is_src s.src src && s.slot == src_slot then taken i else rest

unfoldable pub free_slot : InputDevice → ℕ → InputDevice
free_slot g slot = record g {
  slots =
      set g.slots slot (record {
        src = none;
        slot = (get_or g.slots slot (record { src = none; slot = 0 })).slot;
      });
}

-- `none` is a failed `assert`.
unfoldable pub get_slot : InputDevice → ℕ → ℕ → Option (ℕ × InputDevice)
get_slot g src src_slot =
    if ltb src max_hosts
    then (let g' = record g { src_slots = set g.src_slots src src_slot } in
        elim (slot_scan g.slots src src_slot 0 none) [
          | taken i ↦ some (i, g')
          | first_free k ↦
              some (
                k,
                record g' { slots = set g.slots k (record { src = some src; slot = src_slot }) },
              )
          | full ↦ none
        ])
    else none

unfoldable pub get_current_slot : InputDevice → ℕ → Option (ℕ × InputDevice)
unfolding get_slot
get_current_slot g src = get_slot g src (get_or g.src_slots src 0)

abbrev pub slot_event : ℕ → InputEvent
slot_event slot = record { type = ev_abs; code = abs_mt_slot; value = slot }

abbrev pub window_event : ℕ → InputEvent
window_event id = record { type = ev_abs; code = abs_misc; value = id }

-- The slot that an event is for.
abbrev pub event_slot : InputDevice → ℕ → InputEvent → Option (ℕ × InputDevice)
event_slot g src e =
    if e.code == abs_mt_slot then get_slot g src e.value else get_current_slot g src

-- The window of the source, behind the event.
abbrev pub event_window : InputDevice → ℕ → InputEvent → ℕ
event_window g src e = if e.code == abs_misc then e.value else get_or g.src_window_id src 0

-- Whether there is room for an event in front, when `i` events stand before.
abbrev pub room : ℕ → ℕ → Bool
room i max = ltb (i + 1) max

-- The events in front: of another window, and of another slot.
abbrev pub window_part : InputDevice → ℕ → InputEvent → ℕ → ℕ → List InputEvent
window_part g window e i max =
    if window != g.window_id && (e.code != abs_misc && room i max)
    then window_event window ∷ []
    else []

abbrev pub slot_part : InputDevice → ℕ → InputEvent → ℕ → ℕ → List InputEvent
slot_part g slot e i max =
    if slot != g.slot && (e.code != abs_mt_slot && room i max) then slot_event slot ∷ [] else []

-- The event itself: the value of another slot, and the tracking id.
abbrev pub last_event : InputDevice → ℕ → InputEvent → InputEvent
last_event g slot e =
    if e.code == abs_mt_slot
    then (if slot != g.slot then record e { value = slot } else e)
    else if e.code == abs_mt_tracking_id
    then (if e.value == minus_one then e else record e { value = g.tracking_id })
    else e

-- What becomes of the slots and of the tracking id.
abbrev pub tracked : InputDevice → ℕ → InputEvent → InputDevice
tracked g slot e =
    if e.code == abs_mt_tracking_id
    then if e.value == minus_one
      then free_slot g slot
      else record g { tracking_id = (g.tracking_id + 1) % u16_mod }
    else g

-- The events that are written from place `i` of the array on, and the device, once the slot is known.
-- Where they do not all lie in front of `max`, the place stays, and the next event overwrites them.
unfoldable pub translated :
    InputDevice → ℕ → InputEvent → ℕ → ℕ → ℕ → InputDevice → List InputEvent × InputDevice
translated g src e i max slot g1 =
    let window = event_window g src e in
    let first = window_part g window e i max in
    let second = slot_part g slot e (i + length first) max in
    let out = first ++ (second ++ (last_event g slot e ∷ [])) in
    let g2 = record g1 {
      src_window_id = set g1.src_window_id src window;
      window_id = window;
      slot = slot;
    } in
    (if ltb (i + length out) max then out else [], tracked g2 slot e)

unfoldable pub touch_translate :
    InputDevice → ℕ → InputEvent → ℕ → ℕ → Option (List InputEvent × InputDevice)
touch_translate g src e i max = elim (event_slot g src e) [
  | none ↦ none
  | some (slot, g1) ↦ some (translated g src e i max slot g1)
]

abbrev pub is_touch : InputDev → Bool
is_touch touch = true
is_touch _ = false

abbrev pub has_file : InputDev → Bool
has_file other_dev = false
has_file _ = true

-- UINT16_MAX
abbrev pub events_max : ℕ
events_max = 65535

-- The loop of `input_device_serve`, with the events in the array; `none` is a failed `assert`, or a
-- write behind the end of the array.
pub serve_events :
    InputDev
    → ℕ
    → InputDevice
    → List InputEvent
    → List InputEvent
    → Option (List InputEvent × InputDevice)
serve_events dev src g ie [] = some (ie, g)
serve_events dev src g ie (e ∷ es) =
    if ltb (length ie) events_max
    then if e.type == ev_abs && is_touch dev
      then elim (touch_translate g src e (length ie) events_max) [
        | none ↦ none
        | some (out, g') ↦ serve_events dev src g' (ie ++ out) es
      ]
      else serve_events dev src g (ie ++ (e ∷ [])) es
    else none

-- What is written to the file of the device; there is none for any other device.
unfoldable pub input_device_serve :
    InputDev → ℕ → InputDevice → List InputEvent → Option (List InputEvent × InputDevice)
input_device_serve dev src g es = elim (serve_events dev src g [] es) [
  | none ↦ none
  | some (ie, g') ↦ some (if has_file dev then ie else [], g')
]
