-- ===== src/Device.antt =====
-- include/usb3_device_controller.h and src/usb3_device_controller.cpp: the control pipe on endpoint
-- 0, and the loopback from endpoint 2 to endpoint 1. The rest of the system stands in the state `E`.
pub mod EpFifo
pub mod Descriptors
pub mod Strings
pub mod Dispatch
pub mod Replies
pub mod Blob
pub mod Loopback
pub mod Frame
pub mod Effects
pub mod Lifetime
pub mod Thread
pub mod Turn
pub mod Moved
pub mod Missed
pub mod Wire
pub mod Bytes
mod Tests
use usb3_otg.Base.{
  ℕ, suc, ◌+◌, ◌*◌, ◌/◌, ◌%◌, ◌^◌, Bool, true, false, Option, none, some, List, [], ◌∷◌, ◌++◌,
  length, take, replicate, u8, ltb, ◌==◌, if◌then◌else◌,
}
use usb3_otg.Types.{
  usb_desc_device, usb_desc_configuration, usb_desc_string, usb_desc_bos, usb_req_get_status,
  usb_req_set_address, usb_req_get_descriptor, usb_req_set_configuration, PktType, PktExt, tp_ack,
  tp_nrdy, tp_erdy, tp_stall, dp_data, setup, ctrl_data, ctrl_status, bulk_in, bulk_out, Dir,
  device_to_host, EpType, control, bulk, SetupPkt, make_usb3_ext,
}
use usb3_otg.Types.Tlm.{
  Trans, Socket, Status, ok_response, generic_error_response, write_command, packet, payload,
  set_status,
}
use EpFifo.{Fifo}
unfoldable pub use Strings.{fit, bos, string_descriptor}
use Descriptors.{
  DeviceDescriptor, ConfigDescriptor, InterfaceDescriptor, EndpointDescriptor, CompanionDescriptor,
  default_device, default_config, default_interface, default_endpoint, default_companion,
  dev_desc_to_bytes, config_bytes, interface_bytes, endpoint_bytes, companion_bytes, append_bytes,
  patch_total,
}

-- The members, the values last written to the two output ports, and whether `m_out_ep_event` has
-- been notified.
pub record Device : Type 0 where
  pub configured : Bool
  pub assigned_addr : ℕ
  pub ep1_in : Fifo
  pub ep2_out : Fifo
  pub out_ep_event : Bool
  pub dev_desc : DeviceDescriptor
  pub cfg_desc : ConfigDescriptor
  pub intf_desc : InterfaceDescriptor
  pub ep1_desc : EndpointDescriptor
  pub ep2_desc : EndpointDescriptor
  pub ep1_comp : CompanionDescriptor
  pub ep2_comp : CompanionDescriptor
  pub config_blob : List ℕ
  pub configured_port : Bool
  pub bulk_irq : Bool

unfoldable pub init_descriptors : Device → Device
unfolding append_bytes patch_total
init_descriptors d =
    let ep1 = record (d.ep1_desc) { endpoint_address = 0x81; attributes = 0x02 } in
    let ep2 = record (d.ep2_desc) { endpoint_address = 0x02; attributes = 0x02 } in
    let blob0 = append_bytes [] (config_bytes d.cfg_desc) in
    let blob1 = append_bytes blob0 (interface_bytes d.intf_desc) in
    let blob2 = append_bytes blob1 (endpoint_bytes ep1) in
    let blob3 = append_bytes blob2 (companion_bytes d.ep1_comp) in
    let blob4 = append_bytes blob3 (endpoint_bytes ep2) in
    let blob5 = append_bytes blob4 (companion_bytes d.ep2_comp) in
    record d { ep1_desc = ep1; ep2_desc = ep2; config_blob = patch_total blob5 }

-- The members before `init_descriptors` runs, and the module after its constructor.
abbrev pub blank : Device
blank = record {
  configured = false;
  assigned_addr = 0;
  ep1_in = EpFifo.empty;
  ep2_out = EpFifo.empty;
  out_ep_event = false;
  dev_desc = default_device;
  cfg_desc = default_config;
  intf_desc = default_interface;
  ep1_desc = default_endpoint;
  ep2_desc = default_endpoint;
  ep1_comp = default_companion;
  ep2_comp = default_companion;
  config_blob = [];
  configured_port = false;
  bulk_irq = false;
}

unfoldable pub init : Device
unfolding init_descriptors
init = init_descriptors blank

-- `(wValue >> 8) & 0xFF` and `wValue & 0xFF`.
abbrev pub desc_type : SetupPkt → ℕ
desc_type s = s.value / 2 ^ 8 % 2 ^ 8

abbrev pub desc_index : SetupPkt → ℕ
desc_index s = s.value % 2 ^ 8

-- The `switch` of `handle_get_descriptor`: the response, or `none` for an unknown type.
unfoldable pub descriptor_response : Device → SetupPkt → Option (List ℕ)
descriptor_response d s =
    if desc_type s == usb_desc_device
    then some (dev_desc_to_bytes d.dev_desc)
    else if desc_type s == usb_desc_configuration
    then some (fit s.len d.config_blob)
    else if desc_type s == usb_desc_bos
    then some (fit s.len bos)
    else if desc_type s == usb_desc_string
    then some (fit s.len (string_descriptor (desc_index s)))
    else none

-- The module's surroundings: its initiator socket, the `enable` port, what the rest of the system
-- does while a process waits for so many nanoseconds, and the status of a new transaction.
pub record Env (E : Type 0) : Type 0 where
  pub to_protocol : Socket (Device × E)
  pub enable : E → Bool
  pub pause : ℕ → Device × E → Device × E
  pub fresh : Status

module _ {E : Type 0} (env : Env E) where
  open env use {to_protocol, enable, pause, fresh}

  unfoldable pub send_to_protocol : PktType → ℕ → Dir → List ℕ → EpType → Device × E → Device × E
  send_to_protocol pkt_type endpoint direction bytes ep_type w =
      let ext = make_usb3_ext pkt_type w.0.assigned_addr endpoint direction ep_type in
      (to_protocol (packet fresh write_command ext bytes) w).1

  unfoldable pub stall_endpoint : ℕ → Device × E → Device × E
  unfolding send_to_protocol
  stall_endpoint ep w = send_to_protocol tp_stall ep device_to_host (replicate 4 0) control w

  unfoldable pub send_bulk_in : List ℕ → ℕ → Device × E → Device × E
  unfolding send_to_protocol
  send_bulk_in bytes ep w = send_to_protocol bulk_in ep device_to_host bytes bulk w

  unfoldable pub reply_descriptor : Option (List ℕ) → Trans → Device × E → Trans × (Device × E)
  unfolding stall_endpoint
  reply_descriptor none trans w = (set_status generic_error_response trans, stall_endpoint 0 w)
  reply_descriptor (some bytes) trans w =
      (set_status ok_response trans, send_to_protocol ctrl_data 0 device_to_host bytes control w)

  unfoldable pub handle_get_descriptor : SetupPkt → Trans → Device × E → Trans × (Device × E)
  unfolding reply_descriptor
  handle_get_descriptor s trans w = reply_descriptor (descriptor_response w.0 s) trans w

  -- `wValue & 0x7F`, and two milliseconds of waiting.
  unfoldable pub handle_set_address : SetupPkt → Device × E → Device × E
  handle_set_address s (d, e) = pause 2000000 (record d { assigned_addr = s.value % 2 ^ 7 }, e)

  unfoldable pub handle_set_configuration : SetupPkt → Device × E → Device × E
  handle_set_configuration s (d, e) = (record d { configured = true; configured_port = true }, e)

  unfoldable pub handle_setup : SetupPkt → Trans → Device × E → Trans × (Device × E)
  unfolding handle_get_descriptor handle_set_address handle_set_configuration
  handle_setup s trans w =
      if s.request == usb_req_get_descriptor
      then handle_get_descriptor s trans w
      else if s.request == usb_req_set_address
      then (set_status ok_response trans, handle_set_address s w)
      else if s.request == usb_req_set_configuration
      then (set_status ok_response trans, handle_set_configuration s w)
      else if s.request == usb_req_get_status
      then (
        set_status ok_response trans,
        send_to_protocol ctrl_data 0 device_to_host (replicate 2 0) control w,
      )
      else (set_status generic_error_response trans, stall_endpoint 0 w)

  unfoldable pub handle_bulk_out : Trans → Device × E → Trans × (Device × E)
  unfolding EpFifo.write
  handle_bulk_out trans (d, e) = (
    set_status ok_response trans,
    (record d { ep2_out = EpFifo.write (payload trans) d.ep2_out; out_ep_event = true }, e),
  )

  -- The `BULK_IN` case, given what the read of endpoint 1 returned.
  unfoldable pub send_read : Option (List ℕ) × Fifo → Device × E → Device × E
  unfolding send_bulk_in
  send_read (some bytes, f) (d, e) = send_bulk_in bytes 1 (record d { ep1_in = f }, e)
  send_read (none, f) (d, e) = (record d { ep1_in = f }, e)

  -- `switch (ext->pkt_type)`.
  unfoldable pub dispatch : PktType → PktExt → Trans → Device × E → Trans × (Device × E)
  unfolding handle_setup handle_bulk_out send_read
  dispatch setup ext trans w = handle_setup ext.setup_pkt trans w
  dispatch bulk_out ext trans w = handle_bulk_out trans w
  dispatch ctrl_data ext trans w = handle_bulk_out trans w
  dispatch ctrl_status ext trans w = (
    set_status ok_response trans,
    send_to_protocol ctrl_status 0 device_to_host (replicate 1 0) control w,
  )
  dispatch bulk_in ext trans w =
      (set_status ok_response trans, send_read (EpFifo.read w.0.ep1_in) w)
  dispatch _ ext trans w = (set_status generic_error_response trans, w)

  unfoldable pub accept : Option PktExt → Trans → Device × E → Trans × (Device × E)
  unfolding dispatch
  accept none trans w = (set_status generic_error_response trans, w)
  accept (some ext) trans w = dispatch ext.pkt_type ext trans w

  unfoldable pub from_proto_b_transport : Trans → Device × E → Trans × (Device × E)
  unfolding accept
  from_proto_b_transport trans w =
      if enable w.1 then accept trans.ext trans w else (set_status generic_error_response trans, w)

  -- The rest of a turn of the loop, given what the read of endpoint 2 returned.
  unfoldable pub copy_back : Option (List ℕ) × Fifo → Device × E → Device × E
  unfolding send_to_protocol EpFifo.write
  copy_back (none, f) (d, e) = (record d { ep2_out = f }, e)
  copy_back (some bytes, f) (d, e) =
      let copied = record d { ep2_out = f; ep1_in = EpFifo.write bytes d.ep1_in } in
      let (d1, e1) =
        send_to_protocol tp_erdy 1 device_to_host (1 ∷ 0 ∷ 0 ∷ 0 ∷ []) control (copied, e) in
      let (d2, e2) = pause 10 (record d1 { bulk_irq = true }, e1) in
      (record d2 { bulk_irq = false }, e2)

  -- One turn of `loopback_process`, from its event to its next wait for one.
  unfoldable pub loopback_turn : Device × E → Device × E
  unfolding copy_back
  loopback_turn (d, e) =
      let woken = record d { out_ep_event = false } in
      if d.configured then copy_back (EpFifo.read d.ep2_out) (woken, e) else (woken, e)
