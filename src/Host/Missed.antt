-- ===== src/Host/Missed.antt =====
-- src/usb3_host_controller.cpp, `process_transfer_ring` waits for a request and for nothing else.
use usb3_otg.Base.{Option, none, some, List, ℕ, arith, ◌≡◌, refl, ◌∙◌, Bool, false}
use usb3_otg.Types.Tlm.{Trans}
use usb3_otg.Host.{Host, Env, take_response, from_protocol_b_transport}
use usb3_otg.Host.Thread.{
  for_trb, Net, Step, outside, rise, request, respond, deliver, drop, enumerated, turns, pulse_over,
  Reach, here, next,
}

-- What the firmware sees of the device: the information, the port, and the requests that are left.
pub record IsUnchanged {E : Type 0} (s u : Net E) : Type 0 where
  pub waiting : u.phase ≡ for_trb
  pub no_event : u.host.trb_event ≡ false
  pub same_dev : u.host.dev ≡ s.host.dev
  pub same_addr : u.host.dev_addr_out ≡ s.host.dev_addr_out

take_response_same :
    (p : Option (List ℕ)) (t : Trans) (h : Host)
    → ((take_response p t h).trb_event ≡ h.trb_event)
      × ((take_response p t h).dev ≡ h.dev)
      × ((take_response p t h).dev_addr_out ≡ h.dev_addr_out)
unfolding take_response
take_response_same none t h = (refl, refl, refl)
take_response_same (some bytes) t h = ground arith

module _ {E : Type 0} (env : Env E) where
  Step-IsUnchanged :
      {r : Bool} {s t u : Net E} → Step env r t u → r ≡ false → IsUnchanged s t → IsUnchanged s u
  unfolding from_protocol_b_transport
  Step-IsUnchanged (outside s e a p) n h = record {
    waiting = h.waiting;
    no_event = h.no_event;
    same_dev = h.same_dev;
    same_addr = h.same_addr;
  }
  Step-IsUnchanged (rise s e p a b) n h = cc
  Step-IsUnchanged (request s dev_addr ep direction len bytes g a p e) n h = cc
  Step-IsUnchanged (respond s t p) n h =
      let (event, dev, addr) = take_response_same t.data_ptr t s.host in
      record {
        waiting = h.waiting;
        no_event = event ∙ h.no_event;
        same_dev = dev ∙ h.same_dev;
        same_addr = addr ∙ h.same_addr;
      }
  Step-IsUnchanged (deliver s p t) n h = cc
  Step-IsUnchanged (drop s a p t) n h = absurd (a h.waiting)
  Step-IsUnchanged (enumerated s p t) n h = cc
  Step-IsUnchanged (turns s p) n h = cc
  Step-IsUnchanged (pulse_over s p t) n h = cc

  -- Whatever the enable port does, off and on again included, and whatever responses come: in a
  -- run without requests a host that waits for a request with no notification pending keeps
  -- waiting for it. It does not enumerate again, and it shows the device that it found before.
  pub reenable_missed :
      {r : Bool} {s u : Net E}
      → r ≡ false
      → Reach env r s u
      → s.phase ≡ for_trb
      → s.host.trb_event ≡ false
      → IsUnchanged s u
  reenable_missed n here p e = record {
    waiting = p;
    no_event = e;
    same_dev = refl;
    same_addr = refl;
  }
  reenable_missed n (next run st) p e = Step-IsUnchanged st n (reenable_missed n run p e)
