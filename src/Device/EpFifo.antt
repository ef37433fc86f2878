-- ===== src/Device/EpFifo.antt =====
-- include/usb3_device_controller.h, `usb3_ep_fifo_t`: a one-packet buffer.
use usb3_otg.Base.{ℕ, ◌≡◌, refl, Bool, true, false, Option, none, some, List, [], if◌then◌else◌}

pub record Fifo : Type 0 where
  pub buffer : List ℕ
  pub has_data : Bool

abbrev pub empty : Fifo
empty = record { buffer = []; has_data = false }

unfoldable pub write : List ℕ → Fifo → Fifo
write bytes f = record { buffer = bytes; has_data = true }

-- The bytes, if there are any, and the buffer after the call.
unfoldable pub read : Fifo → Option (List ℕ) × Fifo
read f = if f.has_data then (some f.buffer, empty) else (none, f)

-- A read takes the packet of the last write, whatever stood there, and leaves nothing to read.
pub read-write :
    (bytes : List ℕ) (f : Fifo)
    → (read (write bytes f) ≡ (some bytes, empty)) × (read empty ≡ (none, empty))
unfolding read write
read-write bytes f = (refl, refl)
