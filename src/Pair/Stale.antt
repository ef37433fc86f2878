-- ===== src/Pair/Stale.antt =====
-- src/usb3_host_controller.cpp over src/usb3_device_controller.cpp: what the host takes for data that
-- is none.
use usb3_otg.Base.{ℕ, suc, ◌≡◌, refl, true, [], ◌∷◌, none, List, false, ◌<◌, lt→ltb}
use usb3_otg.Types.Tlm.{Status}
use usb3_otg.Protocol
use usb3_otg.Host.{Host, ctrl_transfer, get_descriptor}
use usb3_otg.Host.Enumerate.{enumerate_device}
use usb3_otg.Host.Process.{Stop, waits, main_turn}
use usb3_otg.Device
use usb3_otg.Device.EpFifo
use usb3_otg.Device.Descriptors
use usb3_otg.System.Loop.{loopback_in}
use usb3_otg.Pair.{Block, Pair, near_side, host_env, upstream_b_transport}
use usb3_otg.Pair.Enumeration.{idle, joined}
use usb3_otg.Types.{SetupPkt, usb_req_get_descriptor}

-- A host that is enabled with one bulk IN in its ring, and a device with nothing to send.
abbrev pub asking : ℕ → ℕ → Block → Block
asking addr len n = record n {
  host = record (n.host) { transfer_ring = loopback_in addr len ∷ [] };
  host_enable = true;
}

abbrev pub silent : Block → Block
silent f = record f { device = record (f.device) { ep1_in = EpFifo.empty } }

abbrev pub request : ℕ → ℕ → ℕ → ℕ → SetupPkt
request kind value index len = record {
  request_type = kind;
  request = usb_req_get_descriptor;
  value = value;
  index = index;
  len = len;
}

module _ (fresh : Status) (depth fuel : ℕ) where
  -- In the thread's turn that enumerates the device of another block and then asks it for bulk data,
  -- of which it has none and sends none: the host's receive buffer holds one zero byte, which is the
  -- device's packet for the status stage of the last control request.
  pub stale_status_received :
      (n f : Block) (addr len : ℕ)
      → let (stop, (h, p)) =
          main_turn
            (host_env fresh idle (suc (suc depth)) near_side)
            (suc (suc fuel))
            ((asking addr len n).host, joined (asking addr len n) (silent f)) in
        (stop ≡ waits) × (h.rx_buf ≡ 0 ∷ [])
  unfolding main_turn usb3_otg.Host.Process.run_trb usb3_otg.Host.Process.process_transfer_ring
      usb3_otg.Host.Ring.dequeue EpFifo.read Device.init Device.fit enumerate_device
      usb3_otg.Host.get_descriptor usb3_otg.Host.set_address usb3_otg.Host.set_configuration
      usb3_otg.Host.ctrl_transfer usb3_otg.Host.setup_stage usb3_otg.Host.data_stage
      usb3_otg.Host.status_stage Protocol.host_b_transport upstream_b_transport
      Protocol.link_b_transport Protocol.device_b_transport usb3_otg.Pair.to_host
      usb3_otg.Pair.to_device usb3_otg.Host.from_protocol_b_transport
      usb3_otg.Host.Enumerate.note_device usb3_otg.Host.Enumerate.note_config
      Device.from_proto_b_transport Device.descriptor_response Device.Descriptors.dev_desc_to_bytes
  stale_status_received n f addr len = (refl, refl)

module _ (fresh : Status) (depth : ℕ) where
  -- With a request of some length for a descriptor that the device of another block does not have, and
  -- answers with a stall: the host's control transfer succeeds, and its caller's buffer holds the four
  -- zero bytes of the stall packet.
  pub stall_taken :
      (n f : Block) (addr kind value index len : ℕ) (buf : List ℕ)
      → 0 < len
      → Device.descriptor_response (joined n f).far.device (request kind value index len) ≡ none
      → let (done, buf', _) =
          ctrl_transfer
            (host_env fresh idle (suc (suc depth)) near_side)
            addr
            (request kind value index len)
            buf
            false
            (n.host, joined n f) in
        (done ≡ true) × (buf' ≡ 0 ∷ 0 ∷ 0 ∷ 0 ∷ [])
  unfolding Device.init ctrl_transfer usb3_otg.Host.setup_stage usb3_otg.Host.data_stage
      usb3_otg.Host.status_stage Protocol.host_b_transport upstream_b_transport
      Protocol.link_b_transport Protocol.device_b_transport usb3_otg.Pair.to_host
      usb3_otg.Pair.to_device usb3_otg.Host.from_protocol_b_transport Device.from_proto_b_transport
  stall_taken n f addr kind value index len buf l d = rw (lt→ltb 0 len l, d) (refl, refl)
