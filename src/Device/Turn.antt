-- ===== src/Device/Turn.antt =====
-- src/usb3_device_controller.cpp, a turn of `loopback_process` up to its pulse where nothing calls
-- back into the device.
use usb3_otg.Base.{
  ℕ, ◌≡◌, true, false, ◌&&◌, Option, none, some, List, arith, if◌then◌else◌, ap, if_true, if_both,
  ◌∙◌, refl,
}
use usb3_otg.Device.EpFifo
use usb3_otg.Device.EpFifo.{Fifo}
use usb3_otg.Device.{Device, Env, send_to_protocol}
use usb3_otg.Device.Effects.{IsQuiet}
use usb3_otg.Device.Thread.{begin_copy, begin_turn, for_pulse, Waiting}

-- The first part of a turn, on the device and for the thread.
abbrev pub begun : Device → Device
begun d =
    let woken = record d { out_ep_event = false } in
    if d.configured && d.ep2_out.has_data
    then record woken {
      ep2_out = EpFifo.empty;
      ep1_in = record { buffer = d.ep2_out.buffer; has_data = true };
      bulk_irq = true;
    }
    else woken

abbrev copied : Option (List ℕ) × Fifo → Device → Device
copied (none, f) d = record d { ep2_out = f }
copied (some bytes, f) d = record d {
  ep2_out = f;
  ep1_in = record { buffer = bytes; has_data = true };
  bulk_irq = true;
}

copied-read :
    (d : Device)
    → d.configured ≡ true
    → copied (EpFifo.read d.ep2_out) (record d { out_ep_event = false }) ≡ begun d
unfolding EpFifo.read
copied-read d c = ground arith

-- The port shows where the thread stands.
pub record Shows (p : Waiting) (d : Device) : Type 0 where
  pub pulsed : d.bulk_irq ≡ true → p ≡ for_pulse
  pub ended : p ≡ for_pulse → d.bulk_irq ≡ true

module _ {E : Type 0} (env : Env E) where
  begin_copy_effect :
      IsQuiet env
      → (r : Option (List ℕ) × Fifo) (w : Device × E) → (begin_copy env r w).1.0 ≡ copied r w.0
  unfolding begin_copy send_to_protocol
  begin_copy_effect q (none, f) w = refl
  begin_copy_effect q (some bytes, f) w =
      ap (λ (d : Device). (record d { bulk_irq = true })) (q.sends _ _)

  pub begin_turn_effect :
      IsQuiet env → (w : Device × E) → w.0.configured ≡ true → (begin_turn env w).1.0 ≡ begun w.0
  unfolding begin_turn
  begin_turn_effect q w c =
      ap (λ (r : Waiting × (Device × E)). r.1.0) (if_true _ _ c)
      ∙ begin_copy_effect q (EpFifo.read w.0.ep2_out) (record (w.0) { out_ep_event = false }, w.1)
      ∙ copied-read w.0 c

  begin_copy-Shows :
      (r : Option (List ℕ) × Fifo) (w : Device × E)
      → w.0.bulk_irq ≡ false
      → Shows (begin_copy env r w).0 (begin_copy env r w).1.0
  unfolding begin_copy
  begin_copy-Shows (none, f) w b = ground arith
  begin_copy-Shows (some bytes, f) w b = ground arith

  pub begin_turn-Shows :
      (w : Device × E) → w.0.bulk_irq ≡ false → Shows (begin_turn env w).0 (begin_turn env w).1.0
  unfolding begin_turn
  begin_turn-Shows w b =
      if_both (λ (r : Waiting × (Device × E)). Shows r.0 r.1.0) w.0.configured
        (begin_copy-Shows (EpFifo.read w.0.ep2_out) (record (w.0) { out_ep_event = false }, w.1) b)
        (ground arith)
