-- ===== src/Renderer/Touch.antt =====
-- rvgpu-input.c, the events that a renderer sends to the proxy: the queues of its input devices, and
-- the slots of its touch screen. The arithmetic of `double` is a parameter. An `int32_t` is its bit
-- pattern.
pub mod Queued
pub mod Calls
pub mod Undone
mod Tests
use Prim.Native.Nat.{max}
use remote_virtio_gpu.Prelude.{
  ℕ, zero, suc, ◌+◌, ◌-◌, ◌%◌, List, [], ◌∷◌, ◌++◌, Option, none, some, Bool, true, false, not,
  ◌&&◌, ◌||◌, length, take, set, get_or, get_elem?, replicate, ltb, ◌==◌, ◌!=◌, if◌then◌else◌,
  u16_mod, u32_mod,
}
use remote_virtio_gpu.InputDevice.{
  InputEvent, InputDev, mouse, mouse_abs, keyboard, touch, other_dev, ev_syn, ev_key, ev_abs,
  abs_misc, abs_mt_slot, abs_mt_position_x, abs_mt_position_y, abs_mt_tracking_id, btn_touch,
  minus_one,
}
use remote_virtio_gpu.Renderer.Virgl.{WindowBox}

-- `ax`, `bx`, `ay` and `by` of a slot: what they are before a touch, how they come from the boxes of
-- the window, the frame and the scanout, and where they put a point.
pub record Plane (C D : Type 0) : Type 0 where
  pub unset : C
  pub coefficients : WindowBox → WindowBox → WindowBox → C
  pub place : C → D → D → ℕ × ℕ

-- `struct rvgpu_input_slot`
pub record TouchSlot (C : Type 0) : Type 0 where
  pub id : ℕ
  pub window_id : ℕ
  pub coefficients : C
  pub last_x : ℕ
  pub last_y : ℕ

-- `struct rvgpu_input_queue`; `hdr.evnum` is the number of the events.
pub record InputQueue : Type 0 where
  pub events : List InputEvent
  pub evmax : ℕ

-- `struct rvgpu_input_state`, with the packets that were written to `out`.
pub record InputState (C : Type 0) : Type 0 where
  pub iq_mouse : InputQueue
  pub iq_mouse_abs : InputQueue
  pub iq_keyboard : InputQueue
  pub iq_touch : InputQueue
  pub slots : List (TouchSlot C)
  pub olds : List (TouchSlot C)
  pub last_slot : ℕ
  pub old_slot : ℕ
  pub last_window_id : ℕ
  pub old_window_id : ℕ
  pub track_seq : ℕ
  pub out : List (InputDev × List InputEvent)

abbrev pub add_events : Bool → InputQueue → List InputEvent → InputQueue
add_events memory q ev =
    let n = length q.events + length ev in
    if ltb q.evmax n && not memory
    then q
    else record { events = take (n % u16_mod) (q.events ++ ev); evmax = max q.evmax n }

abbrev pub abs_event : ℕ → ℕ → InputEvent
abs_event code value = record { type = ev_abs; code = code; value = value }

abbrev pub touch_event : ℕ → InputEvent
touch_event value = record { type = ev_key; code = btn_touch; value = value }

abbrev pub max_slots : ℕ
max_slots = 16

module _ {C : Type 0} where
  -- The first slot with an id; free slots have the id -1.
  pub find_slot_from : ℕ → List (TouchSlot C) → ℕ → Option ℕ
  find_slot_from i [] id = none
  find_slot_from i (s ∷ ss) id =
      let rest = find_slot_from (suc i) ss id in if s.id == id then some i else rest

  unfoldable pub find_slot : InputState C → ℕ → Option ℕ
  unfolding find_slot_from
  find_slot s id = find_slot_from 0 s.slots id

  unfoldable pub find_free_slot : InputState C → Option ℕ
  unfolding find_slot
  find_free_slot s = find_slot s minus_one

  abbrev pub queue : InputState C → InputDev → InputQueue
  queue s mouse = s.iq_mouse
  queue s mouse_abs = s.iq_mouse_abs
  queue s keyboard = s.iq_keyboard
  queue s touch = s.iq_touch
  queue s other_dev = record { events = []; evmax = 0 }

  -- No call names another device, where an `assert` fails.
  abbrev pub with_queue : InputState C → InputDev → InputQueue → InputState C
  with_queue s mouse q = record s { iq_mouse = q }
  with_queue s mouse_abs q = record s { iq_mouse_abs = q }
  with_queue s keyboard q = record s { iq_keyboard = q }
  with_queue s touch q = record s { iq_touch = q }
  with_queue s other_dev q = s

  -- `memory` says whether `realloc` finds memory. The number of events is a `uint16_t`.
  unfoldable pub rvgpu_in_events : Bool → InputState C → InputDev → List InputEvent → InputState C
  rvgpu_in_events memory s dev ev = with_queue s dev (add_events memory (queue s dev) ev)

  abbrev pub no_slot : C → TouchSlot C
  no_slot c = record {
    id = minus_one;
    window_id = 0;
    coefficients = c;
    last_x = minus_one;
    last_y = minus_one;
  }

module _ {C D : Type 0} (plane : Plane C D) (memory : Bool) where
  unfoldable pub rvgpu_in_init : InputState C
  rvgpu_in_init =
      let empty : InputQueue = record { events = []; evmax = 0 } in
      record {
        iq_mouse = empty;
        iq_mouse_abs = empty;
        iq_keyboard = empty;
        iq_touch = empty;
        slots = replicate max_slots (no_slot plane.unset);
        olds = replicate max_slots (no_slot plane.unset);
        last_slot = 0;
        old_slot = 0;
        last_window_id = 0;
        old_window_id = 0;
        track_seq = 0;
        out = [];
      }

  abbrev pub slot_at : InputState C → ℕ → TouchSlot C
  slot_at s slot = get_or s.slots slot (no_slot plane.unset)

  abbrev pub up_events : InputState C → ℕ → List InputEvent
  up_events s slot =
      let evs = abs_event abs_mt_tracking_id minus_one ∷ touch_event 0 ∷ [] in
      if s.last_slot == slot then evs else abs_event abs_mt_slot slot ∷ evs

  -- The part of `rvgpu_in_remove_slot` for a slot that is found.
  unfoldable pub remove_at : InputState C → ℕ → InputState C
  unfolding rvgpu_in_events
  remove_at s slot =
      let s' = rvgpu_in_events memory s touch (up_events s slot) in
      record s' {
        last_slot = slot;
        slots =
            set s.slots slot
              (record (slot_at s slot) { id = minus_one; last_x = minus_one; last_y = minus_one });
      }

  unfoldable pub rvgpu_in_remove_slot : InputState C → ℕ → InputState C
  rvgpu_in_remove_slot s id = elim (find_slot s id) [ none ↦ s | some slot ↦ remove_at s slot ]

  abbrev pub down_events : InputState C → ℕ → ℕ → ℕ → List InputEvent
  down_events s slot window_id track =
      let evs =
        abs_event abs_mt_slot slot ∷ abs_event abs_mt_tracking_id track ∷ touch_event 1 ∷ [] in
      if s.last_window_id == window_id then evs else abs_event abs_misc window_id ∷ evs

  -- The part of `rvgpu_in_add_slot` for the free slot that is found.
  unfoldable pub add_at : InputState C → ℕ → ℕ → ℕ → C → ℕ → InputState C
  unfolding rvgpu_in_events
  add_at s id window_id track c slot =
      let s' = rvgpu_in_events memory s touch (down_events s slot window_id track) in
      record s' {
        last_slot = slot;
        last_window_id = window_id;
        slots =
            set s.slots slot
              (record (slot_at s slot) { id = id; window_id = window_id; coefficients = c });
      }

  unfoldable pub rvgpu_in_add_slot :
      InputState C → ℕ → ℕ → WindowBox → WindowBox → WindowBox → InputState C
  rvgpu_in_add_slot s id window_id window_box frame_box scanout_box =
      let s1 = record s { track_seq = (s.track_seq + 1) % u32_mod } in
      let s2 = rvgpu_in_remove_slot s1 id in
      elim (find_free_slot s2) [
        | none ↦ s2
        | some slot ↦
            add_at s2 id window_id (s.track_seq % u16_mod)
              (plane.coefficients window_box frame_box scanout_box) slot
      ]

  -- The events of a slot that has moved; each coordinate is sent if it changed.
  abbrev pub move_events : InputState C → ℕ → ℕ → ℕ → List InputEvent
  move_events s slot x y =
      let t = slot_at s slot in
      (if s.last_window_id != t.window_id then abs_event abs_misc t.window_id ∷ [] else [])
      ++ ((if s.last_slot != slot then abs_event abs_mt_slot slot ∷ [] else [])
          ++ ((if t.last_x != x then abs_event abs_mt_position_x x ∷ [] else [])
              ++ (if t.last_y != y then abs_event abs_mt_position_y y ∷ [] else [])))

  unfoldable pub add_each : InputState C → List InputEvent → InputState C
  unfolding rvgpu_in_events
  add_each s [] = s
  add_each s (e ∷ es) = add_each (rvgpu_in_events memory s touch (e ∷ [])) es

  -- The part of `rvgpu_in_move_slot` for a slot that is found and a new point. The events are added
  -- one by one.
  unfoldable pub move_at : InputState C → ℕ → ℕ → ℕ → InputState C
  unfolding add_each
  move_at s slot x y =
      let t = slot_at s slot in
      if x != t.last_x || y != t.last_y
      then record (add_each s (move_events s slot x y)) {
        last_window_id = t.window_id;
        last_slot = slot;
        slots = set s.slots slot (record t { last_x = x; last_y = y });
      }
      else s

  unfoldable pub rvgpu_in_move_slot : InputState C → ℕ → D → D → InputState C
  rvgpu_in_move_slot s id x y = elim (find_slot s id) [
    | none ↦ s
    | some slot ↦
        let (new_x, new_y) = plane.place (slot_at s slot).coefficients x y in
        move_at s slot new_x new_y
  ]

  abbrev pub syn_report : InputEvent
  syn_report = record { type = ev_syn; code = 0; value = 0 }

  abbrev pub emptied : InputState C → InputDev → InputState C
  emptied s dev = with_queue s dev (record (queue s dev) { events = [] })

  -- What `rvgpu_in_send` writes: the queue, with SYN_REPORT behind it.
  unfoldable pub written : InputState C → InputDev → InputState C
  unfolding rvgpu_in_events
  written s dev =
      if length (queue s dev).events != 0
      then (let s' = rvgpu_in_events memory s dev (syn_report ∷ []) in
          record s' { out = s'.out ++ ((dev, (queue s' dev).events) ∷ []) })
      else s

  abbrev pub kept : InputState C → InputDev → InputState C
  kept s touch = record s {
    olds = s.slots;
    old_slot = s.last_slot;
    old_window_id = s.last_window_id;
  }
  kept s _ = s

  unfoldable pub rvgpu_in_send : InputState C → InputDev → InputState C
  unfolding written
  rvgpu_in_send s dev = kept (emptied (written s dev) dev) dev

  abbrev pub restored : InputState C → InputDev → InputState C
  restored s touch = record s {
    last_slot = s.old_slot;
    last_window_id = s.old_window_id;
    slots = s.olds;
  }
  restored s _ = s

  unfoldable pub rvgpu_in_clear : InputState C → InputDev → InputState C
  rvgpu_in_clear s dev = restored (emptied s dev) dev
