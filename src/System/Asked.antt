-- ===== src/System/Asked.antt =====
-- src/usb3_host_controller.cpp, `get_descriptor`, and src/sc_main.cpp, `handle_setup`: what the peer
-- has for the setup packet that the host sends.
use usb3_otg.Base.{
  ℕ, ◌*◌, ◌/◌, ◌%◌, ◌^◌, ◌<◌, ◌≡◌, arith, true, List, [], u16, bit_or, bit_or-high, bit_or-lt, ltb,
  ◌==◌, if◌then◌else◌,
}
use usb3_otg.Types.{
  SetupPkt, usb_desc_device, usb_desc_configuration, usb_desc_bos, usb_req_get_descriptor,
}
use usb3_otg.Host.{read_length}
use usb3_otg.Peer

-- The whole descriptor of a type, empty where the peer has none.
abbrev pub whole : ℕ → List ℕ
whole ty =
    if ty == usb_desc_device
    then Peer.make_dev_desc
    else if ty == usb_desc_configuration
    then Peer.make_cfg_desc
    else if ty == usb_desc_bos
    then Peer.bos
    else []

-- The setup packet that `get_descriptor` sends.
abbrev pub asks : ℕ → ℕ → SetupPkt
asks ty idx = record {
  request_type = 0x80;
  request = usb_req_get_descriptor;
  value = u16 (bit_or (ty * 2 ^ 8) idx);
  index = 0;
  len = read_length ty;
}

asked_type : (ty idx : ℕ) → ty < 2 ^ 8 → idx < 2 ^ 8 → (asks ty idx).value / 2 ^ 8 % 2 ^ 8 ≡ ty
asked_type ty idx h k =
    omega (arith, bit_or-high ty idx k, bit_or-lt 16 (ty * 2 ^ 8) idx (omega arith) (omega arith))

-- The peer sends the descriptor whole: none is longer than what the host asks for.
pub descriptor-whole :
    (ty idx : ℕ) → ty < 2 ^ 8 → idx < 2 ^ 8 → Peer.descriptor (asks ty idx) ≡ whole ty
unfolding Peer.descriptor Peer.make_dev_desc usb3_otg.Device.Descriptors.dev_desc_to_bytes
descriptor-whole ty idx h k = rw (asked_type ty idx h k) (ground arith)

pub positive_length : (ty : ℕ) → ltb 0 (read_length ty) ≡ true
positive_length ty = ground arith
