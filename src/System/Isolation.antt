-- ===== src/System/Isolation.antt =====
-- src/usb3_drd_controller.cpp, `upstream_b_transport`, with all that the call does: what a packet from
-- the link leaves alone in the controller that the role does not select.
use usb3_otg.Base.{
  ℕ, zero, suc, ◌≡◌, refl, sym, subst, ◌∙◌, ap, ◌⊎◌, inl, inr, Option, none, some, arith,
}
use usb3_otg.Types.{Role, host, device, PktExt}
use usb3_otg.Types.Tlm.{Trans, Socket, Status}
use usb3_otg.Protocol.{Protocol}
use usb3_otg.Protocol.Routing.{
  Destination, absorbed, destination, active_side, deliver, mark, link_b_transport-deliver,
}
use usb3_otg.Host
use usb3_otg.Device.Frame as DeviceFrame
use usb3_otg.Peer
use usb3_otg.Peer.Frame as PeerFrame
use usb3_otg.Protocol.Frame as ProtocolFrame
use usb3_otg.System.{
  System, to_host, to_device, ports, tx_ports, device_env, peer_env, upstream_b_transport, to_link,
}

-- What a packet leaves alone, by the role in which it came.
abbrev pub Kept : Role → System → System → Type 0
Kept host s t = (t.role ≡ host) × (t.device ≡ s.device)
Kept device s t = (t.role ≡ device) × (t.host ≡ s.host)
Kept Role.none s t = (t.role ≡ Role.none) × (t.host ≡ s.host) × (t.device ≡ s.device)

same_role : (r : Role) (s t : System) → Kept r s t → t.role ≡ r
same_role host s t k = k.0
same_role device s t k = k.0
same_role Role.none s t k = k.0

Kept-refl : (r : Role) (s : System) → s.role ≡ r → Kept r s s
Kept-refl host s e = (e, refl)
Kept-refl device s e = (e, refl)
Kept-refl Role.none s e = (e, refl, refl)

-- The protocol layer and the peer are no part of it.
with_protocol :
    (r : Role) (s t : System) (p : Protocol) → Kept r s t → Kept r s (record t { protocol = p })
with_protocol host s t p k = k
with_protocol device s t p k = k
with_protocol Role.none s t p k = k

with_peer :
    (r : Role) (s t : System) (x : Peer.Peer) → Kept r s t → Kept r s (record t { peer = x })
with_peer host s t x k = k
with_peer device s t x k = k
with_peer Role.none s t x k = k

to_host_keeps :
    (s : System) (t : Trans) (w : Protocol × System)
    → Kept host s w.1
    → Kept host s (to_host t w).1.1
unfolding to_host Host.from_protocol_b_transport
to_host_keeps s t w k = k

-- Where a packet can go.
destination_cases :
    (o : Option PktExt) (r : Role)
    → (destination o r ≡ absorbed) ⊎ (destination o r ≡ active_side r)
destination_cases none r = inr refl
destination_cases (some ext) r = ground arith

-- A socket of the protocol layer, and what runs in the waits, that leave the same alone.
abbrev Leaves : Role → System → Socket (Protocol × System) → Type 0
Leaves r s link = (t : Trans) (w : Protocol × System) → Kept r s w.1 → Kept r s (link t w).1.1

abbrev pub Waits : Role → System → (ℕ → System → System) → Type 0
Waits r s pause = (n : ℕ) (t : System) → Kept r s t → Kept r s (pause n t)

module _ (fresh : Status) (pause : ℕ → System → System) (s : System) where
  device_env-Keeps :
      (link : Socket (Protocol × System))
      → Waits device s pause
      → Leaves device s link
      → DeviceFrame.Keeps (device_env fresh pause link) (Kept device s)
  device_env-Keeps link q l = record {
    sends = λ t w k.
        ProtocolFrame.device_b_transport_keeps (tx_ports link) (Kept device s) l t
          (w.1.protocol, record (w.1) { device = w.0 }) k;
    pauses = λ n w k. q n (record (w.1) { device = w.0 }) k;
  }

  to_device_keeps :
      (link : Socket (Protocol × System))
      → Waits device s pause
      → Leaves device s link
      → Leaves device s (to_device fresh pause link)
  unfolding to_device
  to_device_keeps link q l t w k =
      DeviceFrame.from_proto_keeps (device_env fresh pause link) (Kept device s)
        (device_env-Keeps link q l) t (w.1.device, record (w.1) { protocol = w.0 }) k

  active_keeps :
      (r : Role) (link : Socket (Protocol × System))
      → Waits r s pause
      → Leaves r s link
      → Leaves r s (deliver (ports fresh pause link) (active_side r))
  active_keeps host link q l t w k = to_host_keeps s t w k
  active_keeps device link q l t w k = to_device_keeps link q l t w k
  active_keeps Role.none link q l t w k = k

  upstream_keeps :
      (r : Role) (link : Socket (Protocol × System))
      → Waits r s pause
      → Leaves r s link
      → (t : Trans) (x : System) → Kept r s x
      → Kept r s (upstream_b_transport fresh pause link t x).1
  unfolding upstream_b_transport
  upstream_keeps r link q l t x k = with_protocol r s _ _ (
      subst (λ (y : Trans × (Protocol × System)). Kept r s y.1.1)
        (sym (link_b_transport-deliver (ports fresh pause link) t (x.protocol, x)))
        (elim (destination_cases t.ext r) [
          | inl e ↦ at (e' ∙ e) k
          | inr e ↦ at (e' ∙ e) (active_keeps r link q l t' (x.protocol, x) k)
        ]))
    where
      t' : Trans
      t' = record t { ext = mark t.ext }

      e' : destination t.ext x.role ≡ destination t.ext r
      e' = ap (destination t.ext) (same_role r s x k)

      at :
          {d : Destination}
          → destination t.ext x.role ≡ d
          → Kept r s (deliver (ports fresh pause link) d t' (x.protocol, x)).1.1
          → Kept r s
              (deliver (ports fresh pause link) (destination t.ext x.role) t' (x.protocol, x)).1.1
      at e p =
          subst
            (λ (d : Destination).
              Kept r s (deliver (ports fresh pause link) d t' (x.protocol, x)).1.1)
            (sym e) p

  to_link_keeps : (r : Role) (depth : ℕ) → Waits r s pause → Leaves r s (to_link fresh pause depth)
  unfolding to_link
  to_link_keeps r zero q t w k = k
  to_link_keeps r (suc depth) q t w k = with_peer r s _ _ (
      PeerFrame.b_transport_keeps (peer_env fresh pause (to_link fresh pause depth)) (Kept r s)
        (record {
          sends = λ u x j. with_peer r s _ _ (
              upstream_keeps r (to_link fresh pause depth) q (to_link_keeps r depth q) u
                (record (x.1) { peer = x.0 }) (with_peer r s _ _ j));
        })
        t (w.1.peer, record (w.1) { protocol = w.0 }) (with_protocol r s _ _ k))

-- Whatever packet comes from the link, and however often the device and the peer answer each other
-- while it is handled: in host mode the device controller is left as it was, in device mode the host
-- controller, and in neither mode both. The role stays the same. What runs in the device's waits is
-- to leave the same alone.
pub upstream_b_transport-Kept :
    (fresh : Status) (pause : ℕ → System → System) (depth : ℕ) (t : Trans) (s : System)
    → Waits s.role s pause
    → Kept s.role s (upstream_b_transport fresh pause (to_link fresh pause depth) t s).1
upstream_b_transport-Kept fresh pause depth t s q =
    upstream_keeps fresh pause s s.role (to_link fresh pause depth) q
      (to_link_keeps fresh pause s s.role depth q) t s (Kept-refl s.role s refl)
