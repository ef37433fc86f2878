-- ===== src/System/Bulk.antt =====
-- src/usb3_host_controller.cpp, `process_transfer_ring`, over the protocol layer and the testbench's
-- peer: a bulk OUT that the peer's loopback buffer keeps, and the bulk IN that reads it back.
use usb3_otg.Base.{ℕ, suc, ◌≡◌, true, List, [], ◌∷◌, none, Option, refl, some, sym, subst}
use usb3_otg.Types.{host}
use usb3_otg.Types.Tlm.{Status}
use usb3_otg.Host
use usb3_otg.Host.{Host}
use usb3_otg.Host.Ring.{Trb, enqueue}
use usb3_otg.Host.Process.{process_transfer_ring}
use usb3_otg.System.{System, host_env}
use usb3_otg.System.Quiet.{IsQuiet}
use usb3_otg.System.Loop.{loopback_out, loopback_in, LoopedBack, process_transfer_ring-LoopedBack}

-- A caller that queues both.
pub request_loopback : ℕ → List ℕ → ℕ → Host → Option Host
request_loopback addr bytes len h = elim (Host.bulk_out addr 2 bytes h) [
  | none ↦ none
  | some h' ↦ Host.bulk_in addr 1 len h'
]

request_loopback_lem :
    (addr : ℕ) (bytes : List ℕ) (len : ℕ) (h : Host)
    → h.transfer_ring ≡ []
    → request_loopback addr bytes len h
      ≡ some (record h {
        transfer_ring = loopback_out addr bytes ∷ loopback_in addr len ∷ [];
        trb_event = true;
      })
unfolding request_loopback Host.bulk_out Host.bulk_in Host.enqueue_bulk_trb enqueue
request_loopback_lem addr bytes len h e =
    subst
      (λ (ring : List Trb).
        request_loopback addr bytes len (record h { transfer_ring = ring })
        ≡ some (record h {
          transfer_ring = loopback_out addr bytes ∷ loopback_in addr len ∷ [];
          trb_event = true;
        }))
      (sym e) refl

module _ (fresh : Status) where
  -- In host mode with the host enabled and its ring empty, and when no other process changes the
  -- system in the host's waits: a bulk OUT of any data but none and a bulk IN are accepted, and the
  -- loop over the ring sends both in two numbered packets, leaves the data in the host's receive
  -- buffer, whatever length the IN asked for, and then waits with an empty ring.
  pub bulk_loopback :
      (pause : ℕ → System → System)
      → IsQuiet pause
      → (s : System) (depth fuel addr len b : ℕ) (bs : List ℕ) → s.role ≡ host
      → s.host_enable ≡ true
      → s.host.transfer_ring ≡ []
      → (h : Host) × (request_loopback addr (b ∷ bs) len s.host ≡ some h)
        × LoopedBack
            (b ∷ bs)
            h
            s
            (process_transfer_ring (host_env fresh pause (suc depth)) (suc (suc (suc fuel))) (h, s))
  bulk_loopback pause quiet s depth fuel addr len b bs r on empty =
      let h : Host = record (s.host) {
        transfer_ring = loopback_out addr (b ∷ bs) ∷ loopback_in addr len ∷ [];
        trb_event = true;
      } in
      (
        h,
        request_loopback_lem addr (b ∷ bs) len s.host empty,
        process_transfer_ring-LoopedBack fresh pause quiet h s depth fuel addr len b bs r on refl,
      )
