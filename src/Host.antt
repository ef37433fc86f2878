-- ===== src/Host.antt =====
-- include/usb3_host_controller.h and src/usb3_host_controller.cpp: control transfers, the
-- enumeration of a device, and the transfer ring. The rest of the system stands in the state `E`.
pub mod Ring
pub mod Setup
pub mod Enumerate
pub mod Process
pub mod Transfers
pub mod Response
pub mod Thread
pub mod Logged
pub mod Frame
pub mod Sent
pub mod Served
pub mod Missed
pub mod Refined
pub mod Pulses
mod Tests
use usb3_otg.Base.{
  ℕ, zero, suc, ◌+◌, ◌*◌, ◌/◌, ◌%◌, ◌^◌, Bool, true, false, not, ◌&&◌, Option, none, some, List, [],
  ◌∷◌, ◌++◌, length, get_or, replicate, u8, u16, u32, bit_or, ltb, leb, ◌==◌, if◌then◌else◌,
}
use usb3_otg.Types.{
  usb_desc_device, usb_desc_configuration, usb_desc_bos, usb_req_set_address,
  usb_req_get_descriptor, usb_req_set_configuration, PktType, PktExt, setup, ctrl_data, ctrl_status,
  Dir, host_to_device, device_to_host, EpType, control, bulk, Completion, SetupPkt, Speed,
  super_speed, make_usb3_ext,
}
use usb3_otg.Types.Tlm.{
  Trans, Socket, Status, ok_response, incomplete_response, generic_error_response, Command,
  read_command, write_command, packet, payload,
}
use Ring.{Trb, default_trb, enqueue, dequeue}

pub record DeviceInfo : Type 0 where
  pub addr : ℕ
  pub vendor_id : ℕ
  pub product_id : ℕ
  pub num_configs : ℕ
  pub active_config : ℕ
  pub enumerated : Bool
  pub speed : Speed

abbrev pub no_device : DeviceInfo
no_device = record {
  addr = 0;
  vendor_id = 0;
  product_id = 0;
  num_configs = 0;
  active_config = 0;
  enumerated = false;
  speed = super_speed;
}

-- The members, whether `m_trb_complete_event` has been notified, and the values last written to the
-- three output ports.
pub record Host : Type 0 where
  pub next_addr : ℕ
  pub dev : DeviceInfo
  pub transfer_ring : List Trb
  pub rx_buf : List ℕ
  pub resp_data : List ℕ
  pub resp_valid : Bool
  pub trb_event : Bool
  pub transfer_done : Bool
  pub enumeration_done : Bool
  pub dev_addr_out : ℕ

abbrev pub init : Host
init = record {
  next_addr = 1;
  dev = no_device;
  transfer_ring = [];
  rx_buf = [];
  resp_data = [];
  resp_valid = false;
  trb_event = false;
  transfer_done = false;
  enumeration_done = false;
  dev_addr_out = 0;
}

-- The eight bytes of a setup packet on the wire.
unfoldable pub pack_setup_packet : SetupPkt → List ℕ
pack_setup_packet s =
    s.request_type
    ∷ s.request
    ∷ (s.value % 2 ^ 8)
    ∷ (s.value / 2 ^ 8 % 2 ^ 8)
    ∷ (s.index % 2 ^ 8)
    ∷ (s.index / 2 ^ 8 % 2 ^ 8)
    ∷ (s.len % 2 ^ 8)
    ∷ (s.len / 2 ^ 8 % 2 ^ 8)
    ∷ []

-- The module's surroundings: its initiator socket, the `enable` port, what the rest of the system
-- does while the thread waits for so many nanoseconds, and the status of a new transaction.
pub record Env (E : Type 0) : Type 0 where
  pub to_protocol : Socket (Host × E)
  pub enable : E → Bool
  pub pause : ℕ → Host × E → Host × E
  pub fresh : Status

-- `data_ptr && len > 0` of an inbound transaction.
take_response : Option (List ℕ) → Trans → Host → Host
take_response none trans h = h
take_response (some bytes) trans h =
    if ltb 0 trans.data_length then record h { resp_data = payload trans; resp_valid = true } else h

unfoldable pub from_protocol_b_transport : {E : Type 0} → Trans → Host × E → Trans × (Host × E)
unfolding take_response
from_protocol_b_transport trans (h, e) = (trans, (take_response trans.data_ptr trans h, e))

unfoldable pub enqueue_bulk_trb : ℕ → ℕ → Dir → ℕ → List ℕ → Host → Option Host
unfolding enqueue
enqueue_bulk_trb dev_addr ep direction len bytes h =
    let trb = record default_trb {
      dev_addr = dev_addr;
      endpoint = ep;
      direction = direction;
      ep_type = bulk;
      payload = bytes;
      trb_length = u32 len;
      ioc = true;
    } in
    elim (enqueue trb h.transfer_ring) [
      | none ↦ none
      | some queue ↦ some (record h { transfer_ring = queue; trb_event = true })
    ]

unfoldable pub bulk_out : ℕ → ℕ → List ℕ → Host → Option Host
unfolding enqueue_bulk_trb
bulk_out dev_addr ep bytes h = enqueue_bulk_trb dev_addr ep host_to_device (length bytes) bytes h

unfoldable pub bulk_in : ℕ → ℕ → ℕ → Host → Option Host
unfolding enqueue_bulk_trb
bulk_in dev_addr ep len h = enqueue_bulk_trb dev_addr ep device_to_host len [] h

-- The length that a read of a descriptor asks for.
abbrev pub read_length : ℕ → ℕ
read_length desc_type =
    if desc_type == usb_desc_configuration
    then 255
    else if desc_type == usb_desc_bos
    then 255
    else 18

abbrev is_ok : Status → Bool
is_ok ok_response = true
is_ok incomplete_response = false
is_ok generic_error_response = false

module _ {E : Type 0} (env : Env E) where
  open env use {to_protocol, enable, pause, fresh}

  unfoldable pub setup_stage : ℕ → SetupPkt → Host × E → Host × E
  setup_stage dev_addr s w =
      let ext = record (make_usb3_ext setup dev_addr 0 host_to_device control) { setup_pkt = s } in
      pause 5000 (to_protocol (packet fresh write_command ext (pack_setup_packet s)) w).1

  -- The data buffer that the caller sees after the data stage of an IN transfer.
  unfoldable pub read_response : List ℕ → Host × E → List ℕ × (Host × E)
  read_response buf (h, e) =
      if h.resp_valid
      then (h.resp_data, (record h { resp_data = []; resp_valid = false }, e))
      else (buf, (h, e))

  unfoldable pub send_data : ℕ → SetupPkt → List ℕ → Host × E → Host × E
  send_data dev_addr s buf w =
      let out_buf : List ℕ = elim buf [ [] ↦ replicate s.len 0 | b ∷ bs ↦ b ∷ bs ] in
      let ext = make_usb3_ext ctrl_data dev_addr 0 host_to_device control in
      pause 5000 (to_protocol (packet fresh write_command ext out_buf) w).1

  unfoldable pub data_stage : ℕ → SetupPkt → List ℕ → Bool → Host × E → List ℕ × (Host × E)
  unfolding read_response send_data
  data_stage dev_addr s buf outward w =
      if ltb 0 s.len
      then (if outward then (buf, send_data dev_addr s buf w) else read_response buf w)
      else (buf, w)

  unfoldable pub status_stage : ℕ → Bool → Host × E → Bool × (Host × E)
  status_stage dev_addr outward w =
      let ext =
        make_usb3_ext ctrl_status dev_addr 0 (if outward then device_to_host else host_to_device)
          control in
      let (trans, w') = to_protocol (packet fresh read_command ext (0 ∷ [])) w in
      (is_ok trans.status, pause 2000 w')

  -- The result and the caller's buffer.
  unfoldable pub ctrl_transfer :
      ℕ → SetupPkt → List ℕ → Bool → Host × E → Bool × List ℕ × (Host × E)
  ctrl_transfer dev_addr s buf outward w =
      let (buf', w1) = data_stage dev_addr s buf outward (setup_stage dev_addr s w) in
      let (done, w2) = status_stage dev_addr outward w1 in (done, buf', w2)

  unfoldable pub get_descriptor : ℕ → ℕ → ℕ → List ℕ → Host × E → Bool × List ℕ × (Host × E)
  get_descriptor dev_addr desc_type desc_index buf w =
      let s : SetupPkt = record {
        request_type = 0x80;
        request = usb_req_get_descriptor;
        value = u16 (bit_or (desc_type * 2 ^ 8) desc_index);
        index = 0;
        len = read_length desc_type;
      } in
      ctrl_transfer dev_addr s buf false w

  unfoldable pub set_address : ℕ → ℕ → Host × E → Bool × (Host × E)
  set_address old_addr new_addr w =
      let s : SetupPkt = record {
        request_type = 0x00;
        request = usb_req_set_address;
        value = new_addr;
        index = 0;
        len = 0;
      } in
      let (done, _, w') = ctrl_transfer old_addr s [] true w in (done, w')

  unfoldable pub set_configuration : ℕ → ℕ → Host × E → Bool × (Host × E)
  set_configuration dev_addr config_val w =
      let s : SetupPkt = record {
        request_type = 0x00;
        request = usb_req_set_configuration;
        value = config_val;
        index = 0;
        len = 0;
      } in
      let (done, _, w') = ctrl_transfer dev_addr s [] true w in (done, w')
