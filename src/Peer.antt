-- ===== src/Peer.antt =====
-- src/sc_main.cpp, `peer_device_t`: the USB device that the testbench attaches. The rest of the system
-- stands in the state `E`.
pub mod Frame
use usb3_otg.Base.{
  ℕ, ◌/◌, ◌%◌, ◌^◌, Bool, true, false, Option, none, some, List, [], ◌∷◌, length, take, ltb, ◌==◌,
  if◌then◌else◌,
}
use usb3_otg.Types.{
  usb_desc_device, usb_desc_configuration, usb_desc_bos, usb_req_set_address,
  usb_req_get_descriptor, usb_req_set_configuration, PktType, PktExt, setup, ctrl_data, ctrl_status,
  bulk_in, bulk_out, device_to_host, bulk, SetupPkt, default_ext,
}
use usb3_otg.Types.Tlm.{
  Trans, Socket, Status, ok_response, generic_error_response, write_command, packet, payload,
  set_status,
}
use usb3_otg.Device.Descriptors.{default_device, dev_desc_to_bytes}

pub record Peer : Type 0 where
  pub assigned_addr : ℕ
  pub configured : Bool
  pub loopback_buf : List ℕ

abbrev pub init : Peer
init = record { assigned_addr = 0; configured = false; loopback_buf = [] }

unfoldable pub make_dev_desc : List ℕ
unfolding dev_desc_to_bytes
make_dev_desc = dev_desc_to_bytes default_device

-- Configuration, interface, endpoint 1 IN and its companion, endpoint 2 OUT and its companion.
abbrev pub make_cfg_desc : List ℕ
make_cfg_desc =
    0x09 ∷ 0x02 ∷ 0x31 ∷ 0x00 ∷ 0x01 ∷ 0x01 ∷ 0x00 ∷ 0xC0 ∷ 0x00 ∷ 0x09 ∷ 0x04 ∷ 0x00 ∷ 0x00 ∷ 0x02
    ∷ 0xFF ∷ 0x00 ∷ 0x00 ∷ 0x00 ∷ 0x07 ∷ 0x05 ∷ 0x81 ∷ 0x02 ∷ 0x00 ∷ 0x04 ∷ 0x00 ∷ 0x06 ∷ 0x30
    ∷ 0x00 ∷ 0x00 ∷ 0x00 ∷ 0x00 ∷ 0x07 ∷ 0x05 ∷ 0x02 ∷ 0x02 ∷ 0x00 ∷ 0x04 ∷ 0x00 ∷ 0x06 ∷ 0x30
    ∷ 0x00 ∷ 0x00 ∷ 0x00 ∷ 0x00 ∷ []

abbrev pub bos : List ℕ
bos =
    0x05 ∷ 0x0F ∷ 0x16 ∷ 0x00 ∷ 0x01 ∷ 0x0A ∷ 0x10 ∷ 0x03 ∷ 0x00 ∷ 0x0E ∷ 0x00 ∷ 0x01 ∷ 0x0A ∷ 0xFF
    ∷ 0x07 ∷ []

-- The descriptor of a type, empty for an unknown one, cut to the length that the host asked for.
unfoldable pub descriptor : SetupPkt → List ℕ
unfolding make_dev_desc
descriptor s =
    let dtype = s.value / 2 ^ 8 % 2 ^ 8 in
    let resp =
      if dtype == usb_desc_device
      then make_dev_desc
      else if dtype == usb_desc_configuration
      then make_cfg_desc
      else if dtype == usb_desc_bos
      then bos
      else [] in
    if ltb s.len (length resp) then take s.len resp else resp

-- `to_drd`, and the status of a new transaction.
pub record Env (E : Type 0) : Type 0 where
  pub to_drd : Socket (Peer × E)
  pub fresh : Status

module _ {E : Type 0} (env : Env E) where
  open env use {to_drd, fresh}

  unfoldable pub send_ctrl_data : List ℕ → Peer × E → Peer × E
  send_ctrl_data [] w = w
  send_ctrl_data (b ∷ bs) w =
      let ext : PktExt = record default_ext {
        pkt_type = ctrl_data;
        dev_addr = w.0.assigned_addr;
        endpoint = 0;
        direction = device_to_host;
      } in
      (to_drd (packet fresh write_command ext (b ∷ bs)) w).1

  unfoldable pub send_bulk_in : List ℕ → ℕ → Peer × E → Peer × E
  send_bulk_in bytes ep w =
      let ext : PktExt = record default_ext {
        pkt_type = bulk_in;
        dev_addr = w.0.assigned_addr;
        endpoint = ep;
        direction = device_to_host;
        ep_type = bulk;
      } in
      (to_drd (packet fresh write_command ext bytes) w).1

  unfoldable pub handle_setup : SetupPkt → Peer × E → Peer × E
  unfolding descriptor send_ctrl_data
  handle_setup s w =
      if s.request == usb_req_get_descriptor
      then send_ctrl_data (descriptor s) w
      else if s.request == usb_req_set_address
      then (record (w.0) { assigned_addr = s.value % 2 ^ 7 }, w.1)
      else if s.request == usb_req_set_configuration
      then (record (w.0) { configured = true }, w.1)
      else w

  -- The `BULK_IN` case, by the buffer: the buffer is cleared after the answer.
  answer_bulk_in : List ℕ → ℕ → Peer × E → Peer × E
  unfolding send_bulk_in
  answer_bulk_in [] ep w = w
  answer_bulk_in (b ∷ bs) ep w =
      let (peer, e) = send_bulk_in (b ∷ bs) ep w in (record peer { loopback_buf = [] }, e)

  -- `switch (ext->pkt_type)`.
  dispatch : PktType → PktExt → Trans → Peer × E → Trans × (Peer × E)
  unfolding handle_setup answer_bulk_in
  dispatch setup ext trans w = (set_status ok_response trans, handle_setup ext.setup_pkt w)
  dispatch ctrl_status ext trans w = (set_status ok_response trans, w)
  dispatch bulk_out ext trans w =
      (set_status ok_response trans, (record (w.0) { loopback_buf = payload trans }, w.1))
  dispatch bulk_in ext trans w =
      (set_status ok_response trans, answer_bulk_in w.0.loopback_buf ext.endpoint w)
  dispatch _ ext trans w = (set_status ok_response trans, w)

  accept : Option PktExt → Trans → Peer × E → Trans × (Peer × E)
  unfolding dispatch
  accept none trans w = (set_status generic_error_response trans, w)
  accept (some ext) trans w = dispatch ext.pkt_type ext trans w

  unfoldable pub b_transport : Trans → Peer × E → Trans × (Peer × E)
  unfolding accept
  b_transport trans w = accept trans.ext trans w
