-- ===== src/Renderer/Touch/Queued.antt =====
-- What a renderer's touches put into the queue, a reader reads as these touches.
use mathlib.Core.Path.{subst}
use remote_virtio_gpu.Prelude.{
  ℕ, ◌+◌, ◌%◌, ◌≤◌, ◌<◌, ◌≡◌, refl, sym, ap, ◌∙◌, inl, inr, List, [], ◌∷◌, ◌++◌, true, false, ◌||◌,
  arith, length, ltb, ◌!=◌, if◌then◌else◌, Bool-cases, length-append, take_all, append_assoc,
  append-nil, pair_eq, u16_mod,
}
use remote_virtio_gpu.InputDevice.{
  InputEvent, Touched, Reader, read_event, read_events, touch, abs_mt_position_x, abs_mt_position_y,
  abs_mt_tracking_id, minus_one,
}
use remote_virtio_gpu.Renderer.Touch.{
  Plane, InputQueue, InputState, add_events, rvgpu_in_events, abs_event, touch_event, slot_at,
  up_events, remove_at, down_events, add_at, move_events, add_each, move_at,
}

pub read_events-append :
    (r : Reader) (xs ys : List InputEvent)
    → read_events r (xs ++ ys) ≡ (
        let (now, r') = read_events r xs in
        let (later, r'') = read_events r' ys in (now ++ later, r''))
unfolding read_events
read_events-append r [] ys = refl
read_events-append r (x ∷ xs) ys =
    let (now, r') = read_event r x in
    ap (λ p. (now ++ p.0, p.1)) (read_events-append r' xs ys)
    ∙ pair_eq
        (sym (append_assoc now (read_events r' xs).0 (read_events (read_events r' xs).1 ys).0)) refl

-- A reader of all that was put into the queue.
abbrev pub touch_reader : {C : Type 0} → InputState C → Reader
touch_reader s = record { slot = s.last_slot; window_id = s.last_window_id }

-- At most `n` events were added, which a reader reads as these touches, to be then where the state
-- says; and what a clearing restores is untouched.
pub record Queued {C : Type 0} (s s' : InputState C) (touches : List Touched) (n : ℕ) : Type 0 where
  pub added : List InputEvent
  pub queued : s'.iq_touch.events ≡ s.iq_touch.events ++ added
  pub few : length added ≤ n
  pub told : read_events (touch_reader s) added ≡ (touches, touch_reader s')
  pub same_olds : s'.olds ≡ s.olds
  pub same_old_slot : s'.old_slot ≡ s.old_slot
  pub same_old_window : s'.old_window_id ≡ s.old_window_id

module _ {C : Type 0} where
  pub Queued-nothing : (s : InputState C) (n : ℕ) → Queued s s [] n
  Queued-nothing s n = record {
    added = [];
    queued = sym (append-nil s.iq_touch.events);
    few = omega arith;
    told = unfold read_events in refl;
    same_olds = refl;
    same_old_slot = refl;
    same_old_window = refl;
  }

  pub Queued-trans :
      {s t u : InputState C} {xs ys : List Touched} {m n : ℕ}
      → Queued s t xs m
      → Queued t u ys n
      → Queued s u (xs ++ ys) (m + n)
  Queued-trans {s} {t} {u} {xs} p q = record {
    added = p.added ++ q.added;
    queued =
        q.queued ∙ ap (λ l. l ++ q.added) p.queued ∙ append_assoc s.iq_touch.events p.added q.added;
    few = omega (arith, p.few, q.few, length-append p.added q.added);
    told =
        read_events-append (touch_reader s) p.added q.added
        ∙ ap (λ r. (r.0 ++ (read_events r.1 q.added).0, (read_events r.1 q.added).1)) p.told
        ∙ ap (λ r. (xs ++ r.0, r.1)) q.told;
    same_olds = q.same_olds ∙ p.same_olds;
    same_old_slot = q.same_old_slot ∙ p.same_old_slot;
    same_old_window = q.same_old_window ∙ p.same_old_window;
  }

-- With memory, and fewer than 2 ^ 16 events, nothing is lost.
add_events-all :
    (q : InputQueue) (ev : List InputEvent)
    → length q.events + length ev < u16_mod
    → (add_events true q ev).events ≡ q.events ++ ev
add_events-all q ev h =
    let n = length q.events + length ev in
    let small : n % u16_mod ≡ n = omega arith in
    let all = take_all (n % u16_mod) (q.events ++ ev) (omega (arith, length-append q.events ev)) in
    elim (Bool-cases (ltb q.evmax n)) [ inl e ↦ rw e all | inr e ↦ rw e all ]

module _ {C D : Type 0} (plane : Plane C D) (s : InputState C) where
  -- What the reader is told of a finger that goes up, comes down, or moves.
  abbrev pub lifted : ℕ → List Touched
  lifted slot =
      let at = λ (e : InputEvent).
        let t : Touched = record { slot = slot; window_id = s.last_window_id; event = e } in t in
      at (abs_event abs_mt_tracking_id minus_one) ∷ at (touch_event 0) ∷ []

  pub remove_at-Queued :
      (slot : ℕ)
      → length s.iq_touch.events + 3 < u16_mod
      → Queued s (remove_at plane true s slot) (lifted slot) 3
  unfolding remove_at read_events read_event
  remove_at-Queued slot h =
      let few : length (up_events plane true s slot) ≤ 3 = ground arith in
      record {
        added = up_events plane true s slot;
        queued = add_events-all s.iq_touch (up_events plane true s slot) (omega arith);
        few = few;
        told = ground arith;
        same_olds = refl;
        same_old_slot = refl;
        same_old_window = refl;
      }

  abbrev pub pressed : ℕ → ℕ → ℕ → List Touched
  pressed slot window_id track =
      let at = λ (e : InputEvent).
        let t : Touched = record { slot = slot; window_id = window_id; event = e } in t in
      at (abs_event abs_mt_tracking_id track) ∷ at (touch_event 1) ∷ []

  pub add_at-Queued :
      (id window_id track : ℕ) (c : C) (slot : ℕ)
      → length s.iq_touch.events + 4 < u16_mod
      → Queued s (add_at plane true s id window_id track c slot) (pressed slot window_id track) 4
  unfolding add_at read_events read_event
  add_at-Queued id window_id track c slot h =
      let few : length (down_events plane true s slot window_id track) ≤ 4 = ground arith in
      record {
        added = down_events plane true s slot window_id track;
        queued =
            add_events-all s.iq_touch (down_events plane true s slot window_id track) (omega arith);
        few = few;
        told = ground arith;
        same_olds = refl;
        same_old_slot = refl;
        same_old_window = refl;
      }

  -- Each coordinate is told if it changed.
  abbrev pub moved : ℕ → ℕ → ℕ → List Touched
  moved slot x y =
      let t = slot_at plane true s slot in
      let at = λ (e : InputEvent).
        let u : Touched = record { slot = slot; window_id = t.window_id; event = e } in u in
      (if t.last_x != x then at (abs_event abs_mt_position_x x) ∷ [] else [])
      ++ (if t.last_y != y then at (abs_event abs_mt_position_y y) ∷ [] else [])

  move_events_few : (slot x y : ℕ) → length (move_events plane true s slot x y) ≤ 4
  move_events_few slot x y = ground arith

  -- The events of a finger that moved.
  move_events-told :
      (slot x y : ℕ)
      → read_events (touch_reader s) (move_events plane true s slot x y) ≡ (
        moved slot x y,
        record { slot = slot; window_id = (slot_at plane true s slot).window_id },
      )
  unfolding read_events read_event
  move_events-told slot x y = ground arith

module _ {C D : Type 0} (plane : Plane C D) where
  -- The events are added one by one, and nothing else changes.
  record Adds (s : InputState C) (es : List InputEvent) (s' : InputState C) : Type 0 where
    queued : s'.iq_touch.events ≡ s.iq_touch.events ++ es
    same_olds : s'.olds ≡ s.olds
    same_old_slot : s'.old_slot ≡ s.old_slot
    same_old_window : s'.old_window_id ≡ s.old_window_id

  one_added :
      (s : InputState C) (e : InputEvent)
      → length s.iq_touch.events + 1 < u16_mod
      → Adds s (e ∷ []) (rvgpu_in_events true s touch (e ∷ []))
  unfolding rvgpu_in_events
  one_added s e h = record {
    queued = add_events-all s.iq_touch (e ∷ []) (omega arith);
    same_olds = refl;
    same_old_slot = refl;
    same_old_window = refl;
  }

  Adds-cons :
      (s t u : InputState C) (e : InputEvent) (es : List InputEvent)
      → Adds s (e ∷ []) t
      → Adds t es u
      → Adds s (e ∷ es) u
  Adds-cons s t u e es p q = record {
    queued = q.queued ∙ ap (λ l. l ++ es) p.queued ∙ append_assoc s.iq_touch.events (e ∷ []) es;
    same_olds = q.same_olds ∙ p.same_olds;
    same_old_slot = q.same_old_slot ∙ p.same_old_slot;
    same_old_window = q.same_old_window ∙ p.same_old_window;
  }

  add_each-Adds :
      (s : InputState C) (es : List InputEvent)
      → length s.iq_touch.events + length es < u16_mod
      → Adds s es (add_each plane true s es)
  unfolding add_each
  add_each-Adds s [] h = record {
    queued = sym (append-nil s.iq_touch.events);
    same_olds = refl;
    same_old_slot = refl;
    same_old_window = refl;
  }
  add_each-Adds s (e ∷ es) h =
      let one = one_added s e (omega arith) in
      let n = ap length one.queued ∙ length-append s.iq_touch.events (e ∷ []) in
      Adds-cons s (rvgpu_in_events true s touch (e ∷ [])) _ e es one
        (add_each-Adds (rvgpu_in_events true s touch (e ∷ [])) es (omega (arith, n)))

  moved_nowhere :
      (s : InputState C) (slot x y : ℕ)
      → (let t = slot_at plane true s slot in (x != t.last_x || y != t.last_y) ≡ false)
      → moved plane s slot x y ≡ []
  moved_nowhere s slot x y h = ground arith

  pub move_at-Queued :
      (s : InputState C) (slot x y : ℕ)
      → length s.iq_touch.events + 4 < u16_mod
      → Queued s (move_at plane true s slot x y) (moved plane s slot x y) 4
  move_at-Queued s slot x y h =
      let t = slot_at plane true s slot in
      elim (Bool-cases (x != t.last_x || y != t.last_y)) [
        | inr still ↦
            let none_told = moved_nowhere s slot x y still in
            unfold move_at in
            rw still (subst (λ ts. Queued s s ts 4) (sym none_told) (Queued-nothing s 4))
        | inl changed ↦
            let few = move_events_few plane s slot x y in
            let adds = add_each-Adds s (move_events plane true s slot x y) (omega arith) in
            unfold move_at in
            rw changed (record {
              added = move_events plane true s slot x y;
              queued = adds.queued;
              few = few;
              told = move_events-told plane s slot x y;
              same_olds = adds.same_olds;
              same_old_slot = adds.same_old_slot;
              same_old_window = adds.same_old_window;
            })
      ]
