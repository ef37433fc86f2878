-- ===== src/Protocol/Frame.antt =====
-- src/usb3_protocol_layer.cpp: what holds of the other modules, and is kept by the link, is kept by
-- the transmit path.
use usb3_otg.Base.{Option, none, some}
use usb3_otg.Types.{PktExt}
use usb3_otg.Types.Tlm.{Trans}
use usb3_otg.Protocol.{Protocol, Ports, route_ext, device_b_transport}

module _ {E : Type 0} (ports : Ports E) (P : E → Type 0) where
  abbrev pub LinkKeeps : Type 0
  LinkKeeps = (t : Trans) (w : Protocol × E) → P w.1 → P (ports.to_link t w).1.1

  route_keeps :
      LinkKeeps
      → (o : Option PktExt) (t : Trans) (w : Protocol × E) → P w.1
      → P (route_ext ports o t w).1.1
  unfolding route_ext
  route_keeps l none t w p = l _ w p
  route_keeps l (some ext) t w p = l _ _ p

  pub device_b_transport_keeps :
      LinkKeeps → (t : Trans) (w : Protocol × E) → P w.1 → P (device_b_transport ports t w).1.1
  unfolding device_b_transport
  device_b_transport_keeps l t w p = route_keeps l t.ext t w p
