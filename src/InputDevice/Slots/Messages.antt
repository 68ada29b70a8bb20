-- ===== src/InputDevice/Slots/Messages.antt =====
-- A whole message keeps the slots of the fingers apart.
use remote_virtio_gpu.Prelude.{ℕ, List, none, set}
use remote_virtio_gpu.InputDevice.Slots.{InputSlot, InputDevice}

-- A slot that is given up belongs to no finger.
module _ (slots : List InputSlot) (i n : ℕ) where
  abbrev freed : List InputSlot
  freed = set slots i (record { src = none; slot = n })
