-- ===== src/Protocol/Routing.antt =====
-- src/usb3_protocol_layer.cpp, the receive path: where a packet from the link goes.
use usb3_otg.Base.{◌≡◌, ◌≢◌, Bool, true, false, Option, none, some, arith, if◌then◌else◌}
use usb3_otg.Types.{
  Role, host, device, PktType, PktExt, stall_err, tp_ack, tp_nrdy, tp_erdy, tp_stall,
}
use usb3_otg.Types.Tlm.{Trans, Socket, incomplete_response, set_status}
use usb3_otg.Protocol.{Protocol, Ports, link_b_transport}

-- The description of the receive path that the theorems compare the code with.
pub data Destination : Type 0 where
  absorbed host_side device_side nowhere : Destination

-- Handshakes end in the layer, all else is for the active controller.
abbrev pub is_handshake : PktType → Bool
is_handshake tp_ack = true
is_handshake tp_nrdy = true
is_handshake tp_erdy = true
is_handshake _ = false

abbrev pub is_stall : PktType → Bool
is_stall tp_stall = true
is_stall _ = false

abbrev pub active_side : Role → Destination
active_side host = host_side
active_side device = device_side
active_side Role.none = nowhere

abbrev pub destination : Option PktExt → Role → Destination
destination none r = active_side r
destination (some ext) r = if is_handshake ext.pkt_type then absorbed else active_side r

abbrev pub mark_stall : PktExt → PktExt
mark_stall ext = if is_stall ext.pkt_type then record ext { code = stall_err } else ext

abbrev pub mark : Option PktExt → Option PktExt
mark none = none
mark (some ext) = some (mark_stall ext)

module _ {E : Type 0} (ports : Ports E) where
  abbrev pub deliver : Destination → Trans → Protocol × E → Trans × (Protocol × E)
  deliver absorbed trans w = (trans, w)
  deliver host_side trans w = ports.to_host trans w
  deliver device_side trans w = ports.to_device trans w
  deliver nowhere trans w = (set_status incomplete_response trans, w)

  -- A packet from the link goes where the description says, a stall with its completion code set and
  -- any other packet as it came; the counter and the other modules are left to the callee.
  pub link_b_transport-deliver :
      (trans : Trans) (w : Protocol × E)
      → link_b_transport ports trans w
        ≡ deliver
            (destination trans.ext (ports.current_role w.1))
            (record trans { ext = mark trans.ext })
            w
  unfolding link_b_transport
  link_b_transport-deliver trans w = ground arith

  -- A controller that is not the active one is never called, whatever it would do.
  pub inactive_unreached :
      (other : Socket (Protocol × E)) (trans : Trans) (w : Protocol × E)
      → (ports.current_role w.1 ≢ host
          → link_b_transport (record ports { to_host = other }) trans w
            ≡ link_b_transport ports trans w)
        × (ports.current_role w.1 ≢ device
            → link_b_transport (record ports { to_device = other }) trans w
              ≡ link_b_transport ports trans w)
  unfolding link_b_transport
  inactive_unreached other trans w = ground arith
