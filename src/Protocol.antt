-- ===== src/Protocol.antt =====
-- include/usb3_protocol_layer.h and src/usb3_protocol_layer.cpp: what the layer does with a
-- transaction from a controller or from the link. The other modules stand in the state `E`.
pub mod Numbering
pub mod Routing
pub mod Frame
mod Tests
use usb3_otg.Base.{ℕ, ◌+◌, Bool, true, false, Option, none, some, u32, if◌then◌else◌}
use usb3_otg.Types.{
  Role, host, device, PktType, PktExt, default_ext, stall_err, tp_ack, tp_nrdy, tp_erdy, tp_stall,
  dp_data, setup, bulk_in, bulk_out,
}
use usb3_otg.Types.Tlm.{Trans, Socket, incomplete_response, set_status}

-- `m_seq_num`, a `uint32_t`.
pub record Protocol : Type 0 where
  pub seq_num : ℕ

abbrev pub init : Protocol
init = record { seq_num = 0 }

unfoldable pub next_seq : Protocol → ℕ × Protocol
next_seq p = (p.seq_num, record p { seq_num = u32 (p.seq_num + 1) })

unfoldable pub uses_sequence : PktType → Bool
uses_sequence dp_data = true
uses_sequence bulk_out = true
uses_sequence bulk_in = true
uses_sequence setup = true
uses_sequence _ = false

-- The number that a packet leaves with, and the layer after that.
unfoldable pub stamp : Protocol → PktExt → PktExt × Protocol
unfolding next_seq uses_sequence
stamp p ext =
    if uses_sequence ext.pkt_type
    then (let (n, p') = next_seq p in (record ext { seq_num = n }, p'))
    else (ext, p)

-- The layer's initiator sockets, and the `current_role` port.
pub record Ports (E : Type 0) : Type 0 where
  pub to_link : Socket (Protocol × E)
  pub to_host : Socket (Protocol × E)
  pub to_device : Socket (Protocol × E)
  pub current_role : E → Role

module _ {E : Type 0} (ports : Ports E) where
  open ports use {to_link, to_host, to_device, current_role}

  send_default : Trans → Protocol × E → Trans × (Protocol × E)
  send_default trans w =
      let (trans', w') = to_link (record trans { ext = some default_ext }) w in
      (record trans' { ext = none }, w')

  send_stamped : PktExt → Trans → Protocol × E → Trans × (Protocol × E)
  unfolding stamp
  send_stamped ext trans (p, e) =
      let (ext', p') = stamp p ext in to_link (record trans { ext = some ext' }) (p', e)

  route_ext : Option PktExt → Trans → Protocol × E → Trans × (Protocol × E)
  unfolding send_default send_stamped
  route_ext none trans w = send_default trans w
  route_ext (some ext) trans w = send_stamped ext trans w

  unfoldable pub route_tx : Trans → Protocol × E → Trans × (Protocol × E)
  unfolding route_ext
  route_tx trans w = route_ext trans.ext trans w

  unfoldable pub controller_tx_b_transport : Trans → Protocol × E → Trans × (Protocol × E)
  unfolding route_tx
  controller_tx_b_transport trans w = route_tx trans w

  unfoldable pub host_b_transport : Trans → Protocol × E → Trans × (Protocol × E)
  unfolding controller_tx_b_transport
  host_b_transport trans w = controller_tx_b_transport trans w

  unfoldable pub device_b_transport : Trans → Protocol × E → Trans × (Protocol × E)
  unfolding controller_tx_b_transport
  device_b_transport trans w = controller_tx_b_transport trans w

  forward_by : Role → Trans → Protocol × E → Trans × (Protocol × E)
  forward_by host trans w = to_host trans w
  forward_by device trans w = to_device trans w
  forward_by Role.none trans w = (set_status incomplete_response trans, w)

  unfoldable pub forward_to_active_controller : Trans → Protocol × E → Trans × (Protocol × E)
  unfolding forward_by
  forward_to_active_controller trans w = forward_by (current_role w.1) trans w

  -- `switch (ext->pkt_type)`; the cases that only log are the first three.
  dispatch_rx : PktType → PktExt → Trans → Protocol × E → Trans × (Protocol × E)
  unfolding forward_to_active_controller
  dispatch_rx tp_ack ext trans w = (trans, w)
  dispatch_rx tp_nrdy ext trans w = (trans, w)
  dispatch_rx tp_erdy ext trans w = (trans, w)
  dispatch_rx tp_stall ext trans w =
      forward_to_active_controller (record trans { ext = some (record ext { code = stall_err }) }) w
  dispatch_rx _ ext trans w = forward_to_active_controller trans w

  rx_ext : Option PktExt → Trans → Protocol × E → Trans × (Protocol × E)
  unfolding dispatch_rx
  rx_ext none trans w = forward_to_active_controller trans w
  rx_ext (some ext) trans w = dispatch_rx ext.pkt_type ext trans w

  unfoldable pub handle_rx : Trans → Protocol × E → Trans × (Protocol × E)
  unfolding rx_ext
  handle_rx trans w = rx_ext trans.ext trans w

  unfoldable pub link_b_transport : Trans → Protocol × E → Trans × (Protocol × E)
  unfolding handle_rx
  link_b_transport trans w = handle_rx trans w
