-- ===== src/Device/Wire.antt =====
-- src/usb3_device_controller.cpp: what the device puts on the wire.
use usb3_otg.Base.{
  ℕ, ◌^◌, ◌<◌, refl, Bool, false, Option, none, some, List, [], ◌∷◌, arith, replicate, if_both,
  ◌==◌,
}
use usb3_otg.Types.{
  PktType, PktExt, SetupPkt, setup, ctrl_data, ctrl_status, bulk_in, bulk_out, tp_stall, tp_erdy,
  Dir, EpType, device_to_host, control, bulk, usb_req_get_descriptor, usb_req_set_address,
  usb_req_set_configuration, usb_req_get_status, usb_desc_device, usb_desc_configuration,
  usb_desc_bos, usb_desc_string,
}
use usb3_otg.Types.Tlm.{Trans, buffer}
use usb3_otg.Device.EpFifo
use usb3_otg.Device.EpFifo
use usb3_otg.Device.EpFifo.{Fifo}
use usb3_otg.Device.Descriptors.{dev_desc_to_bytes}
use usb3_otg.Device.{
  Device, send_to_protocol, send_read, reply_descriptor, descriptor_response, desc_type, desc_index,
  handle_setup, dispatch, accept, from_proto_b_transport, copy_back, loopback_turn, bos,
  handle_bulk_out,
}
use usb3_otg.Device.Replies.{recorder}
use usb3_otg.Device.Lifetime.{Event, receives, turns, run_events, step}
use usb3_otg.Device.Bytes.{
  IsBytes, are_bytes-IsBytes, IsBytes-take, IsBytes-zeros, ArePackets, ArePackets-snoc, IsBytes-fit,
  IsBytes-string_descriptor, OfBytes,
}

-- A device that holds bytes and has sent packets.
abbrev pub Holds : Device × List Trans → Type 0
Holds (d, log) =
    (d.assigned_addr < 2 ^ 7)
    × IsBytes d.ep1_in.buffer
    × IsBytes d.ep2_out.buffer
    × IsBytes d.config_blob
    × IsBytes (dev_desc_to_bytes d.dev_desc)
    × ArePackets log

descriptor_response-OfBytes :
    (w : Device × List Trans) (s : SetupPkt) → Holds w → OfBytes (descriptor_response w.0 s)
unfolding descriptor_response
descriptor_response-OfBytes w s h = if_both OfBytes (desc_type s == usb_desc_device) h.4 (
    if_both OfBytes (desc_type s == usb_desc_configuration) (IsBytes-fit s.len _ h.3) (
      if_both OfBytes (desc_type s == usb_desc_bos)
        (IsBytes-fit s.len bos (are_bytes-IsBytes bos refl))
        (if_both OfBytes (desc_type s == usb_desc_string)
          (IsBytes-fit s.len _ (IsBytes-string_descriptor (desc_index s))) tt)))

-- Of the result of a handler.
abbrev After : Trans × (Device × List Trans) → Type 0
After r = Holds r.1

module _ (on : Bool) where
  send-Holds :
      (ty : PktType) (ep : ℕ) (dir : Dir) (bytes : List ℕ) (ept : EpType) (w : Device × List Trans)
      → ep < 2 ^ 4
      → IsBytes bytes
      → Holds w
      → Holds (send_to_protocol (recorder on) ty ep dir bytes ept w)
  unfolding send_to_protocol
  send-Holds ty ep dir bytes ept w e b h = (
    h.0,
    h.1,
    h.2,
    h.3,
    h.4,
    ArePackets-snoc w.1 _ h.5 (record { sized = refl; bytes = b; header = (h.0, e) }),
  )

  reply-Holds :
      (r : Option (List ℕ)) (t : Trans) (w : Device × List Trans)
      → OfBytes r
      → Holds w
      → Holds (reply_descriptor (recorder on) r t w).1
  unfolding reply_descriptor
  reply-Holds none t w b h =
      send-Holds tp_stall 0 device_to_host (replicate 4 0) control w (omega arith) (IsBytes-zeros 4)
        h
  reply-Holds (some bytes) t w b h =
      send-Holds ctrl_data 0 device_to_host bytes control w (omega arith) b h

  setup-Holds :
      (s : SetupPkt) (t : Trans) (w : Device × List Trans)
      → Holds w
      → Holds (handle_setup (recorder on) s t w).1
  unfolding handle_setup
  setup-Holds s t w h =
      if_both After (s.request == usb_req_get_descriptor)
        (reply-Holds (descriptor_response w.0 s) t w (descriptor_response-OfBytes w s h) h)
        (if_both After (s.request == usb_req_set_address) (omega arith, h.1, h.2, h.3, h.4, h.5)
          (if_both After (s.request == usb_req_set_configuration) h (
            if_both After (s.request == usb_req_get_status)
              (send-Holds ctrl_data 0 device_to_host (replicate 2 0) control w (omega arith)
                (IsBytes-zeros 2) h)
              (send-Holds tp_stall 0 device_to_host (replicate 4 0) control w (omega arith)
                (IsBytes-zeros 4) h))))

  read-Holds :
      (w : Device × List Trans)
      → Holds w
      → Holds (send_read (recorder on) (EpFifo.read w.0.ep1_in) w)
  unfolding send_read EpFifo.read
  read-Holds (d, log) h =
      if_both (λ (r : Option (List ℕ) × Fifo). Holds (send_read (recorder on) r (d, log)))
        d.ep1_in.has_data
        (send-Holds bulk_in 1 device_to_host d.ep1_in.buffer bulk
          (record d { ep1_in = EpFifo.empty }, log) (omega arith) h.1 (h.0, tt, h.2, h.3, h.4, h.5))
        h

  data-Holds :
      (t : Trans) (w : Device × List Trans)
      → IsBytes (buffer t.data_ptr)
      → Holds w
      → Holds (handle_bulk_out (recorder on) t w).1
  unfolding handle_bulk_out
  data-Holds t (d, log) b h =
      (h.0, h.1, IsBytes-take t.data_length (buffer t.data_ptr) b, h.3, h.4, h.5)

  dispatch-Holds :
      (ty : PktType) (ext : PktExt) (t : Trans) (w : Device × List Trans)
      → IsBytes (buffer t.data_ptr)
      → Holds w
      → Holds (dispatch (recorder on) ty ext t w).1
  unfolding dispatch
  dispatch-Holds setup ext t w b h = setup-Holds ext.setup_pkt t w h
  dispatch-Holds bulk_out ext t w b h = data-Holds t w b h
  dispatch-Holds ctrl_data ext t w b h = data-Holds t w b h
  dispatch-Holds bulk_in ext t w b h = read-Holds w h
  dispatch-Holds ctrl_status ext t w b h =
      send-Holds ctrl_status 0 device_to_host (replicate 1 0) control w (omega arith)
        (IsBytes-zeros 1) h
  dispatch-Holds _ ext t w b h = h

  accept-Holds :
      (o : Option PktExt) (t : Trans) (w : Device × List Trans)
      → IsBytes (buffer t.data_ptr)
      → Holds w
      → Holds (accept (recorder on) o t w).1
  unfolding accept
  accept-Holds none t w b h = h
  accept-Holds (some ext) t w b h = dispatch-Holds ext.pkt_type ext t w b h

  receive-Holds :
      (t : Trans) (w : Device × List Trans)
      → IsBytes (buffer t.data_ptr)
      → Holds w
      → Holds (from_proto_b_transport (recorder on) t w).1
  unfolding from_proto_b_transport
  receive-Holds t w b h = if_both After on (accept-Holds t.ext t w b h) h

  copy-Holds :
      (r : Option (List ℕ) × Fifo) (w : Device × List Trans)
      → OfBytes r.0
      → IsBytes r.1.buffer
      → Holds w
      → Holds (copy_back (recorder on) r w)
  unfolding copy_back EpFifo.write
  copy-Holds (none, f) (d, log) b c h = (h.0, h.1, c, h.3, h.4, h.5)
  copy-Holds (some bytes, f) (d, log) b c h =
      send-Holds tp_erdy 1 device_to_host (1 ∷ 0 ∷ 0 ∷ 0 ∷ []) control
        (record d { ep2_out = f; ep1_in = EpFifo.write bytes d.ep1_in }, log) (omega arith)
        (are_bytes-IsBytes (1 ∷ 0 ∷ 0 ∷ 0 ∷ []) refl) (h.0, b, c, h.3, h.4, h.5)

  turn-Holds : (w : Device × List Trans) → Holds w → Holds (loopback_turn (recorder on) w)
  unfolding loopback_turn EpFifo.read
  turn-Holds (d, log) h =
      let woken : Device × List Trans = (record d { out_ep_event = false }, log) in
      if_both Holds d.configured
        (if_both (λ (r : Option (List ℕ) × Fifo). Holds (copy_back (recorder on) r woken))
          d.ep2_out.has_data (copy-Holds (some d.ep2_out.buffer, EpFifo.empty) woken h.2 tt h)
          (copy-Holds (none, d.ep2_out) woken tt h.2 h))
        h

-- What comes to the device is bytes.
abbrev pub BringBytes : List Event → Type 0
BringBytes [] = Unit {0}
BringBytes (receives t ∷ es) = IsBytes (buffer t.data_ptr) × BringBytes es
BringBytes (turns ∷ es) = BringBytes es

-- Over a protocol layer that answers nothing, from a device that holds bytes and an address of seven
-- bits, and whatever packets of bytes come in whatever order with turns of the thread: every packet
-- that the device sends is of bytes, states the length of its buffer, and bears an address of seven
-- bits and an endpoint of four, and the device holds bytes again.
pub run_events-Holds :
    (on : Bool) (es : List Event) (w : Device × List Trans)
    → BringBytes es
    → Holds w
    → Holds (run_events (recorder on) es w)
unfolding run_events step
run_events-Holds on [] w b h = h
run_events-Holds on (receives t ∷ es) w b h =
    run_events-Holds on es _ b.1 (receive-Holds on t w b.0 h)
run_events-Holds on (turns ∷ es) w b h = run_events-Holds on es _ b (turn-Holds on w h)
