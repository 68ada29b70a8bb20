-- ===== src/InputDevice.antt =====
-- The input events of rvgpu-protocol.h and of linux/input.h, and how a guest kernel reads the events
-- of a touch screen with slots. An `int32_t` is its bit pattern.
pub mod Slots
use remote_virtio_gpu.Prelude.{ℕ, ◌-◌, List, [], ◌∷◌, ◌++◌, ◌==◌, if◌then◌else◌, u32_mod}

-- `struct rvgpu_input_event`, and the fields of `struct input_event` that are set.
pub record InputEvent : Type 0 where
  pub type : ℕ
  pub code : ℕ
  pub value : ℕ

-- The values of `enum rvgpu_input_dev`.
pub data InputDev : Type 0 where
  mouse mouse_abs keyboard touch other_dev : InputDev

abbrev pub ev_syn : ℕ
ev_syn = 0

abbrev pub ev_key : ℕ
ev_key = 1

abbrev pub ev_abs : ℕ
ev_abs = 3

abbrev pub abs_misc : ℕ
abs_misc = 40

abbrev pub abs_mt_slot : ℕ
abs_mt_slot = 47

abbrev pub abs_mt_position_x : ℕ
abs_mt_position_x = 53

abbrev pub abs_mt_position_y : ℕ
abs_mt_position_y = 54

abbrev pub abs_mt_tracking_id : ℕ
abs_mt_tracking_id = 57

abbrev pub btn_touch : ℕ
btn_touch = 330

-- -1, as an `int32_t`.
abbrev pub minus_one : ℕ
minus_one = u32_mod - 1

-- An event with the slot and the window that it is for.
pub record Touched : Type 0 where
  pub slot : ℕ
  pub window_id : ℕ
  pub event : InputEvent

-- What a reader keeps between two events: ABS_MT_SLOT and ABS_MISC say for which slot and window the
-- events behind them are.
pub record Reader : Type 0 where
  pub slot : ℕ
  pub window_id : ℕ

unfoldable pub read_event : Reader → InputEvent → List Touched × Reader
read_event r e =
    if e.code == abs_mt_slot
    then ([], record r { slot = e.value })
    else if e.code == abs_misc
    then ([], record r { window_id = e.value })
    else (record { slot = r.slot; window_id = r.window_id; event = e } ∷ [], r)

unfoldable pub read_events : Reader → List InputEvent → List Touched × Reader
read_events r [] = ([], r)
read_events r (e ∷ es) =
    let (now, r') = read_event r e in let (later, r'') = read_events r' es in (now ++ later, r'')
