-- ===== src/Host/Thread.antt =====
-- src/usb3_host_controller.cpp, `host_main_process` among its events: changes of the rest of the
-- system, the `enable` port included, requests of the firmware, responses, and the simulation
-- kernel, which delivers a notification to the thread if it waits for one and drops it while the
-- thread waits for something else. A notification is for the next delta cycle, so it is delivered or
-- dropped before time goes on. The enumeration is one step, at the end of its waits: it reads and
-- writes neither the ring nor the notification, so that what comes meanwhile stands before it.
use usb3_otg.Base.{ℕ, ◌≡◌, ◌≢◌, Bool, true, false, none, some, List, if◌then◌else◌, Option}
use usb3_otg.Types.{Dir}
use usb3_otg.Types.Tlm.{Trans}
use usb3_otg.Host.{Host, Env, no_device, enqueue_bulk_trb, from_protocol_b_transport}
use usb3_otg.Host.Ring.{Trb, dequeue}
use usb3_otg.Host.Enumerate.{enumerate_device}
use usb3_otg.Host.Process.{collect, trb_trans}

-- Where the thread stands: `wait(enable.posedge_event())`, a wait inside `enumerate_device`, the head
-- of the ring's loop, the wait that holds the pulse of `transfer_done`, `wait(m_trb_complete_event)`.
pub data Phase : Type 0 where
  for_enable enumerating at_head for_pulse for_trb : Phase

module _ {E : Type 0} (env : Env E) where
  -- The end of a transfer, up to its wait.
  unfoldable pub raise : Bool → Host × E → Phase × (Host × E)
  raise false w = (at_head, w)
  raise true (h, e) = (for_pulse, (record h { transfer_done = true }, e))

  unfoldable pub begin_trb : Trb → Host × E → Phase × (Host × E)
  unfolding raise
  begin_trb trb w =
      raise trb.ioc (collect env trb.direction (env.to_protocol (trb_trans env trb) w).1)

  unfoldable pub take_next : Option (Trb × List Trb) → Host × E → Phase × (Host × E)
  unfolding begin_trb
  take_next none w = (for_trb, w)
  take_next (some (trb, queue)) (h, e) = begin_trb trb (record h { transfer_ring = queue }, e)

  -- The loop from its head to the next wait, or to its head again.
  unfoldable pub turn : Host × E → Phase × (Host × E)
  unfolding take_next
  turn (h, e) =
      if env.enable e then take_next (dequeue h.transfer_ring) (h, e) else (for_enable, (h, e))

unfoldable pub end_pulse : Host → Host
end_pulse h = record h { transfer_done = false }

-- The module, its surroundings and its thread.
pub record Net (E : Type 0) : Type 0 where
  pub host : Host
  pub rest : E
  pub phase : Phase

abbrev pub net : {E : Type 0} → Phase × (Host × E) → Net E
net (p, (h, e)) = record { host = h; rest = e; phase = p }

-- A run may contain requests or not.
pub data Step {E : Type 0} (env : Env E) (requests : Bool) : Net E → Net E → Type 0 where
  outside :
      (s : Net E) (e : E)
      → s.phase ≢ at_head
      → (s.phase ≡ for_enable → env.enable e ≡ true → env.enable s.rest ≡ true)
      → Step env requests s (record s { rest = e })
  rise :
      (s : Net E) (e : E)
      → s.phase ≡ for_enable
      → env.enable s.rest ≡ false
      → env.enable e ≡ true
      → Step env requests s
          (record s { host = record (s.host) { dev = no_device }; rest = e; phase = enumerating })
  request :
      (s : Net E) (dev_addr ep : ℕ) (direction : Dir) (len : ℕ) (bytes : List ℕ) (h : Host)
      → requests ≡ true
      → s.phase ≢ at_head
      → enqueue_bulk_trb dev_addr ep direction len bytes s.host ≡ some h
      → Step env requests s (record s { host = h })
  respond :
      (s : Net E) (t : Trans)
      → s.phase ≢ at_head
      → Step env requests s (net (s.phase, (from_protocol_b_transport t (s.host, s.rest)).1))
  deliver :
      (s : Net E)
      → s.phase ≡ for_trb
      → s.host.trb_event ≡ true
      → Step env requests s
          (record s { host = record (s.host) { trb_event = false }; phase = at_head })
  drop :
      (s : Net E)
      → s.phase ≢ for_trb
      → s.phase ≢ at_head
      → s.host.trb_event ≡ true
      → Step env requests s (record s { host = record (s.host) { trb_event = false } })
  enumerated :
      (s : Net E)
      → s.phase ≡ enumerating
      → s.host.trb_event ≡ false
      → Step env requests s (net (at_head, enumerate_device env (s.host, s.rest)))
  turns : (s : Net E) → s.phase ≡ at_head → Step env requests s (net (turn env (s.host, s.rest)))
  pulse_over :
      (s : Net E)
      → s.phase ≡ for_pulse
      → s.host.trb_event ≡ false
      → Step env requests s (record s { host = end_pulse s.host; phase = at_head })

pub data Reach {E : Type 0} (env : Env E) (requests : Bool) (s : Net E) : Net E → Type 0 where
  here : Reach env requests s s
  next : {t u : Net E} → Reach env requests s t → Step env requests t u → Reach env requests s u
