-- ===== src/Device/Thread.antt =====
-- src/usb3_device_controller.cpp, `loopback_process` among its events: packets from the protocol
-- layer, changes of the rest of the system, and the simulation kernel, which delivers a notification
-- to the thread if it waits for one and drops it while the thread waits for the end of its pulse.
-- A notification is for the next delta cycle, so it is delivered or dropped before the ten
-- nanoseconds of a pulse are over. A packet is one step: after its two milliseconds of waiting a
-- SET_ADDRESS touches no member.
use usb3_otg.Base.{
  ◌≡◌, refl, sym, ap, ◌∙◌, inl, inr, Bool, true, false, Option, none, some, List, [], ◌∷◌,
  if◌then◌else◌, Bool-cases, if_true, if_false, ℕ,
}
use usb3_otg.Types.{tp_erdy, device_to_host, control}
use usb3_otg.Types.Tlm.{Trans}
use usb3_otg.Device.EpFifo
use usb3_otg.Device.EpFifo.{Fifo}
use usb3_otg.Device.{
  Device, Env, send_to_protocol, copy_back, from_proto_b_transport, loopback_turn,
}

-- Where the thread stands: `wait(m_out_ep_event)`, or the wait that holds the pulse.
pub data Waiting : Type 0 where
  for_event for_pulse : Waiting

module _ {E : Type 0} (env : Env E) where
  unfoldable pub begin_copy : Option (List ℕ) × Fifo → Device × E → Waiting × (Device × E)
  unfolding EpFifo.write
  begin_copy (none, f) (d, e) = (for_event, (record d { ep2_out = f }, e))
  begin_copy (some bytes, f) (d, e) =
      let copied = record d { ep2_out = f; ep1_in = EpFifo.write bytes d.ep1_in } in
      let (d1, e1) =
        send_to_protocol env tp_erdy 1 device_to_host (1 ∷ 0 ∷ 0 ∷ 0 ∷ []) control (copied, e) in
      (for_pulse, (record d1 { bulk_irq = true }, e1))

  -- A turn up to its next wait, and the rest of it after the wait for the pulse.
  unfoldable pub begin_turn : Device × E → Waiting × (Device × E)
  unfolding begin_copy
  begin_turn (d, e) =
      let woken = record d { out_ep_event = false } in
      if d.configured
      then begin_copy (EpFifo.read d.ep2_out) (woken, e)
      else (for_event, (woken, e))

unfoldable pub end_turn : Device → Device
end_turn d = record d { bulk_irq = false }

module _ {E : Type 0} (env : Env E) where
  unfoldable pub finish : Waiting × (Device × E) → Device × E
  unfolding end_turn
  finish (for_event, w) = w
  finish (for_pulse, w) = let (d, e) = env.pause 10 w in (end_turn d, e)

  finish_copy :
      (r : Option (List ℕ) × Fifo) (w : Device × E)
      → finish (begin_copy env r w) ≡ copy_back env r w
  unfolding finish begin_copy copy_back end_turn
  finish_copy (none, f) w = refl
  finish_copy (some bytes, f) w = refl

  -- The two parts of a turn, with the wait for the pulse between them where there is one, are the
  -- turn of the thread.
  pub finish-begin_turn : (w : Device × E) → finish (begin_turn env w) ≡ loopback_turn env w
  unfolding begin_turn loopback_turn finish
  finish-begin_turn (d, e) = elim (Bool-cases d.configured) [
    | inl c ↦
        ap finish (if_true _ _ c)
        ∙ finish_copy (EpFifo.read d.ep2_out) (record d { out_ep_event = false }, e)
        ∙ sym (if_true _ _ c)
    | inr c ↦ ap finish (if_false _ _ c) ∙ sym (if_false _ _ c)
  ]

-- The module, its surroundings and its thread.
pub record Net (E : Type 0) : Type 0 where
  pub device : Device
  pub outside : E
  pub waiting : Waiting

abbrev pub net : {E : Type 0} → Waiting × (Device × E) → Net E
net (p, (d, e)) = record { device = d; outside = e; waiting = p }

-- A run may drop notifications or not.
pub data Step {E : Type 0} (env : Env E) (drops : Bool) : Net E → Net E → Type 0 where
  receive :
      (s : Net E) (t : Trans)
      → Step env drops s (net (s.waiting, (from_proto_b_transport env t (s.device, s.outside)).1))
  outside : (s : Net E) (e : E) → Step env drops s (record s { outside = e })
  wake :
      (s : Net E)
      → s.device.out_ep_event ≡ true
      → s.waiting ≡ for_event
      → Step env drops s (net (begin_turn env (s.device, s.outside)))
  drop :
      (s : Net E)
      → drops ≡ true
      → s.device.out_ep_event ≡ true
      → s.waiting ≡ for_pulse
      → Step env drops s (record s { device = record (s.device) { out_ep_event = false } })
  pulse_over :
      (s : Net E)
      → s.device.out_ep_event ≡ false
      → s.waiting ≡ for_pulse
      → Step env drops s (record s { device = end_turn s.device; waiting = for_event })

pub data Reach {E : Type 0} (env : Env E) (drops : Bool) (s : Net E) : Net E → Type 0 where
  here : Reach env drops s s
  next : {t u : Net E} → Reach env drops s t → Step env drops t u → Reach env drops s u
