-- ===== src/Renderer/Touch/Calls.antt =====
-- The touches of a renderer one after the other.
use remote_virtio_gpu.Prelude.{
  ℕ, ◌+◌, ◌*◌, ◌%◌, ◌≤◌, ◌<◌, ap, inl, inr, List, [], ◌∷◌, ◌++◌, none, some, true, arith, length,
  Option-cases, length-append, u16_mod, u32_mod,
}
use remote_virtio_gpu.InputDevice.{Touched}
use remote_virtio_gpu.Renderer.Virgl.{WindowBox}
use remote_virtio_gpu.Renderer.Touch.{
  Plane, InputState, find_slot, find_free_slot, slot_at, rvgpu_in_remove_slot, rvgpu_in_add_slot,
  rvgpu_in_move_slot,
}
use remote_virtio_gpu.Renderer.Touch.Queued.{
  Queued, lifted, pressed, moved, remove_at-Queued, add_at-Queued, move_at-Queued, Queued-nothing,
  Queued-trans,
}

-- The calls that change the touch screen.
pub data TouchCall (D : Type 0) : Type 0 where
  add_slot : ℕ → ℕ → WindowBox → WindowBox → WindowBox → TouchCall D
  move_slot : ℕ → D → D → TouchCall D
  remove_slot : ℕ → TouchCall D

module _ {C D : Type 0} (plane : Plane C D) where
  abbrev pub touch_call : InputState C → TouchCall D → InputState C
  touch_call s (add_slot id w window frame scanout) =
      rvgpu_in_add_slot plane true s id w window frame scanout
  touch_call s (move_slot id x y) = rvgpu_in_move_slot plane true s id x y
  touch_call s (remove_slot id) = rvgpu_in_remove_slot plane true s id

  abbrev pub touch_calls : InputState C → List (TouchCall D) → InputState C
  touch_calls s [] = s
  touch_calls s (c ∷ cs) = touch_calls (touch_call s c) cs

  -- What a reader is told of a call: what the finger did, for its own slot and window; of a finger
  -- that has no slot, nothing. A finger that comes down twice is lifted first.
  abbrev pub told_removal : InputState C → ℕ → List Touched
  told_removal s id = elim (find_slot s id) [ none ↦ [] | some slot ↦ lifted plane s slot ]

  abbrev pub counted : InputState C → InputState C
  counted s = record s { track_seq = (s.track_seq + 1) % u32_mod }

  abbrev pub told_call : InputState C → TouchCall D → List Touched
  told_call s (remove_slot id) = told_removal s id
  told_call s (move_slot id x y) = elim (find_slot s id) [
    | none ↦ []
    | some slot ↦
        let (new_x, new_y) = plane.place (slot_at plane true s slot).coefficients x y in
        moved plane s slot new_x new_y
  ]
  told_call s (add_slot id w window frame scanout) =
      let s2 = rvgpu_in_remove_slot plane true (counted s) id in
      told_removal (counted s) id ++ elim (find_free_slot s2) [
        | none ↦ []
        | some slot ↦ pressed plane s2 slot w (s.track_seq % u16_mod)
      ]

  abbrev pub told_calls : InputState C → List (TouchCall D) → List Touched
  told_calls s [] = []
  told_calls s (c ∷ cs) = told_call s c ++ told_calls (touch_call s c) cs

  removal-Queued :
      (s : InputState C) (id : ℕ)
      → length s.iq_touch.events + 3 < u16_mod
      → Queued s (rvgpu_in_remove_slot plane true s id) (told_removal s id) 3
  removal-Queued s id h = elim (Option-cases (find_slot s id)) [
    | inl e ↦
        unfold rvgpu_in_remove_slot in
        rw (e, rvgpu_in_remove_slot, told_removal) (Queued-nothing s 3)
    | inr (slot, e) ↦
        unfold rvgpu_in_remove_slot in
        rw (e, rvgpu_in_remove_slot, told_removal) (remove_at-Queued plane s slot h)
  ]

  Queued-le :
      {s t : InputState C} {xs : List Touched} {m n : ℕ} → m ≤ n → Queued s t xs m → Queued s t xs n
  Queued-le h q = record {
    added = q.added;
    queued = q.queued;
    few = omega (arith, q.few);
    told = q.told;
    same_olds = q.same_olds;
    same_old_slot = q.same_old_slot;
    same_old_window = q.same_old_window;
  }

  pub Queued-length :
      {s t : InputState C} {xs : List Touched} {n : ℕ}
      → Queued s t xs n
      → length t.iq_touch.events ≤ length s.iq_touch.events + n
  Queued-length {s} q =
      omega (arith, ap length q.queued, length-append s.iq_touch.events q.added, q.few)

  add_slot-Queued :
      (s : InputState C) (id w : ℕ) (window frame scanout : WindowBox)
      → length s.iq_touch.events + 7 < u16_mod
      → Queued s
          (rvgpu_in_add_slot plane true s id w window frame scanout)
          (told_call s (add_slot id w window frame scanout))
          7
  add_slot-Queued s id w window frame scanout h =
      let s2 = rvgpu_in_remove_slot plane true (counted s) id in
      let first = removal-Queued (counted s) id (omega arith) in
      let n = Queued-length first in
      let start : Queued s s2 (told_removal (counted s) id) 3 = record {
        added = first.added;
        queued = first.queued;
        few = first.few;
        told = first.told;
        same_olds = first.same_olds;
        same_old_slot = first.same_old_slot;
        same_old_window = first.same_old_window;
      } in
      elim (Option-cases (find_free_slot s2)) [
        | inl e ↦
            unfold rvgpu_in_add_slot in
            rw (e, rvgpu_in_add_slot, told_call) (Queued-trans start (Queued-nothing s2 4))
        | inr (slot, e) ↦
            unfold rvgpu_in_add_slot in
            rw (e, rvgpu_in_add_slot, told_call)
              (Queued-trans start (
                add_at-Queued plane s2 id w (s.track_seq % u16_mod)
                  (plane.coefficients window frame scanout) slot (omega (arith, n))))
      ]

  move_slot-Queued :
      (s : InputState C) (id : ℕ) (x y : D)
      → length s.iq_touch.events + 4 < u16_mod
      → Queued s (rvgpu_in_move_slot plane true s id x y) (told_call s (move_slot id x y)) 4
  move_slot-Queued s id x y h = elim (Option-cases (find_slot s id)) [
    | inl e ↦
        unfold rvgpu_in_move_slot in rw (e, rvgpu_in_move_slot, told_call) (Queued-nothing s 4)
    | inr (slot, e) ↦
        let (new_x, new_y) = plane.place (slot_at plane true s slot).coefficients x y in
        unfold rvgpu_in_move_slot in
        rw (e, rvgpu_in_move_slot, told_call) (move_at-Queued plane s slot new_x new_y h)
  ]

  touch_call-Queued :
      (s : InputState C) (c : TouchCall D)
      → length s.iq_touch.events + 7 < u16_mod
      → Queued s (touch_call s c) (told_call s c) 7
  touch_call-Queued s (add_slot id w window frame scanout) h =
      add_slot-Queued s id w window frame scanout h
  touch_call-Queued s (move_slot id x y) h =
      Queued-le (omega arith) (move_slot-Queued s id x y (omega arith))
  touch_call-Queued s (remove_slot id) h =
      Queued-le (omega arith) (removal-Queued s id (omega arith))

  pub touch_calls-Queued :
      (s : InputState C) (cs : List (TouchCall D))
      → length s.iq_touch.events + 7 * length cs < u16_mod
      → Queued s (touch_calls s cs) (told_calls s cs) (7 * length cs)
  touch_calls-Queued s [] h = Queued-nothing s 0
  touch_calls-Queued s (c ∷ cs) h =
      let one = touch_call-Queued s c (omega arith) in
      let n = Queued-length one in
      Queued-le (omega arith)
        (Queued-trans one (touch_calls-Queued (touch_call s c) cs (omega (arith, n))))
