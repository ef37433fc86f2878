-- ===== src/Device/Replies.antt =====
-- src/usb3_device_controller.cpp, what a request on endpoint 0 is answered with.
use usb3_otg.Base.{
  ℕ, ◌≤◌, ◌≡◌, ◌≢◌, refl, Bool, true, Option, none, some, List, [], ◌∷◌, ◌++◌, arith, length,
  length-take, replicate, ◌==◌, if_both,
}
use usb3_otg.Types.{
  usb_desc_device, PktType, PktExt, SetupPkt, setup, ctrl_data, tp_stall, device_to_host, control,
  make_usb3_ext, usb_req_get_descriptor, usb_req_set_address, usb_req_set_configuration,
  usb_req_get_status,
}
use usb3_otg.Types.Tlm.{
  Trans, Status, ok_response, incomplete_response, generic_error_response, write_command, packet,
}
use usb3_otg.Device.{
  Device, Env, fit, descriptor_response, desc_type, handle_setup, from_proto_b_transport, bos,
  string_descriptor, desc_index, reply_descriptor,
}
use usb3_otg.Device.Descriptors.{DeviceDescriptor, dev_desc_to_bytes}
use usb3_otg.Device.Dispatch.{from_proto-handle_setup}

-- A protocol layer that keeps what it is given, and in which no other process does anything.
abbrev pub recorder : Bool → Env (List Trans)
recorder on = record {
  to_protocol = λ t w. (t, (w.0, w.1 ++ t ∷ []));
  enable = λ _. on;
  pause = λ n w. w;
  fresh = incomplete_response;
}

length-fit : (len : ℕ) (bytes : List ℕ) → length (fit len bytes) ≤ len
unfolding fit
length-fit len bytes = ground (arith, length-take len bytes)

length-device : (d : DeviceDescriptor) → length (dev_desc_to_bytes d) ≡ 18
unfolding dev_desc_to_bytes
length-device d = refl

-- A response to GET_DESCRIPTOR is no longer than the host asked for, unless it is the device
-- descriptor; that one is always sent whole, in eighteen bytes.
pub length-descriptor_response :
    (d : Device) (s : SetupPkt) (bytes : List ℕ)
    → descriptor_response d s ≡ some bytes
    → (desc_type s ≢ usb_desc_device → length bytes ≤ s.len)
      × (desc_type s ≡ usb_desc_device → length bytes ≡ 18)
unfolding descriptor_response
length-descriptor_response d s bytes h = ground (
  arith,
  length-fit s.len d.config_blob,
  length-fit s.len bos,
  length-fit s.len (string_descriptor (desc_index s)),
  length-device d.dev_desc,
)

-- A packet of the device on endpoint 0.
abbrev pub control_packet : Device → PktType → List ℕ → Trans
control_packet d ty bytes =
    packet incomplete_response write_command
      (make_usb3_ext ty d.assigned_addr 0 device_to_host control) bytes

-- The packets that one request adds, and the status of its transaction.
pub data Answered (d : Device) (log log' : List Trans) (status : Status) : Type 0 where
  silent : status ≡ ok_response → log' ≡ log → Answered d log log' status
  replied :
      (bytes : List ℕ)
      → status ≡ ok_response
      → log' ≡ log ++ control_packet d ctrl_data bytes ∷ []
      → Answered d log log' status
  stalled :
      status ≡ generic_error_response
      → log' ≡ log ++ control_packet d tp_stall (replicate 4 0) ∷ []
      → Answered d log log' status

descriptor-Answered :
    (d : Device) (log : List Trans) (t : Trans) (r : Option (List ℕ))
    → let (t', w) = reply_descriptor (recorder true) r t (d, log) in Answered d log w.1 t'.status
unfolding reply_descriptor
descriptor-Answered d log t none = stalled refl refl
descriptor-Answered d log t (some bytes) = replied bytes refl refl

request-Answered :
    (d : Device) (log : List Trans) (t : Trans) (s : SetupPkt)
    → let (t', w) = handle_setup (recorder true) s t (d, log) in Answered d log w.1 t'.status
unfolding handle_setup
request-Answered d log t s =
    if_both P (s.request == usb_req_get_descriptor)
      (descriptor-Answered d log t (descriptor_response d s))
      (if_both P (s.request == usb_req_set_address) (silent refl refl) (
        if_both P (s.request == usb_req_set_configuration) (silent refl refl) (
          if_both P (s.request == usb_req_get_status) (replied (replicate 2 0) refl refl)
            (stalled refl refl))))
  where
    P : Trans × (Device × List Trans) → Type 0
    P r = Answered d log r.1.1 r.0.status

-- Every control request that reaches the enabled device, over a protocol layer that answers
-- nothing, is answered once: with success and at most one data packet, or with an error and one
-- stall on endpoint 0, sent from the address that the device had. No other packet leaves.
pub setup-Answered :
    (d : Device) (log : List Trans) (t : Trans) (ext : PktExt)
    → t.ext ≡ some ext
    → ext.pkt_type ≡ setup
    → let (t', w) = from_proto_b_transport (recorder true) t (d, log) in
      Answered d log w.1 t'.status
setup-Answered d log t ext h k =
    rw (from_proto-handle_setup (recorder true) t (d, log) ext h k refl)
      (request-Answered d log t ext.setup_pkt)
