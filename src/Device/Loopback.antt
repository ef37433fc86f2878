-- ===== src/Device/Loopback.antt =====
-- src/usb3_device_controller.cpp, the loopback from endpoint 2 to endpoint 1 as the host sees it.
use usb3_otg.Base.{
  ℕ, ◌≡◌, refl, ap, ◌∙◌, true, false, some, List, [], ◌∷◌, ◌++◌, append_assoc, if_true, if_false,
}
use usb3_otg.Types.{
  PktExt, bulk_out, bulk_in, tp_erdy, device_to_host, control, bulk, make_usb3_ext, empty_setup,
}
use usb3_otg.Types.Tlm.{Trans, incomplete_response, write_command, packet, payload}
use usb3_otg.Device.EpFifo
use usb3_otg.Device.{
  Device, handle_bulk_out, send_read, from_proto_b_transport, loopback_turn,
  handle_set_configuration,
}
use usb3_otg.Device.Dispatch.{from_proto-handle_bulk_out, from_proto-send_read}
use usb3_otg.Device.Replies.{recorder}

abbrev pub World : Type 0
World = Device × List Trans

-- A bulk OUT packet, the turn of the thread that it wakes, and a bulk IN.
pub out_turn_in : Trans → Trans → World → World
out_turn_in out inn w =
    (from_proto_b_transport (recorder true) inn
      (loopback_turn (recorder true) (from_proto_b_transport (recorder true) out w).1)).1

abbrev pub erdy : Device → Trans
erdy d =
    packet incomplete_response write_command
      (make_usb3_ext tp_erdy d.assigned_addr 1 device_to_host control) (1 ∷ 0 ∷ 0 ∷ 0 ∷ [])

abbrev pub bulk_answer : Device → List ℕ → Trans
bulk_answer d bytes =
    packet incomplete_response write_command
      (make_usb3_ext bulk_in d.assigned_addr 1 device_to_host bulk) bytes

-- The device with a packet in endpoint 2's buffer, and with that packet moved to endpoint 1's.
abbrev pub arrived : Device → List ℕ → Device
arrived d bytes = record d {
  ep2_out = record { buffer = bytes; has_data = true };
  out_ep_event = true;
}

abbrev pub moved : Device → List ℕ → Device
moved d bytes = record d {
  ep2_out = EpFifo.empty;
  ep1_in = record { buffer = bytes; has_data = true };
  out_ep_event = false;
  bulk_irq = false;
}

after_out :
    (w : World) (out : Trans) (ext : PktExt)
    → out.ext ≡ some ext
    → ext.pkt_type ≡ bulk_out
    → (from_proto_b_transport (recorder true) out w).1 ≡ (arrived w.0 (payload out), w.1)
unfolding handle_bulk_out
after_out w out ext h k =
    ap (λ (r : Trans × World). r.1) (from_proto-handle_bulk_out (recorder true) out w ext h k refl)

after_turn :
    (d : Device) (log : List Trans) (bytes : List ℕ)
    → d.configured ≡ true
    → loopback_turn (recorder true) (arrived d bytes, log) ≡ (moved d bytes, log ++ erdy d ∷ [])
unfolding loopback_turn EpFifo.read
after_turn d log bytes c = if_true _ _ c

after_in :
    (d : Device) (log : List Trans) (bytes : List ℕ) (inn : Trans) (ext : PktExt)
    → inn.ext ≡ some ext
    → ext.pkt_type ≡ bulk_in
    → (from_proto_b_transport (recorder true) inn (moved d bytes, log)).1
      ≡ (record (moved d bytes) { ep1_in = EpFifo.empty }, log ++ bulk_answer d bytes ∷ [])
unfolding send_read EpFifo.read
after_in d log bytes inn ext h k =
    ap (λ (r : Trans × World). r.1)
      (from_proto-send_read (recorder true) inn (moved d bytes, log) ext h k refl)

after_skip :
    (d : Device) (log : List Trans) (bytes : List ℕ)
    → d.configured ≡ false
    → loopback_turn (recorder true) (arrived d bytes, log)
      ≡ (record (arrived d bytes) { out_ep_event = false }, log)
unfolding loopback_turn
after_skip d log bytes c = if_false _ _ c

after_none :
    (d : Device) (log : List Trans) (inn : Trans) (ext : PktExt)
    → inn.ext ≡ some ext
    → ext.pkt_type ≡ bulk_in
    → d.ep1_in.has_data ≡ false
    → (from_proto_b_transport (recorder true) inn (d, log)).1 ≡ (d, log)
unfolding send_read EpFifo.read
after_none d log inn ext h k e =
    ap (λ (r : Trans × World). r.1) (from_proto-send_read (recorder true) inn (d, log) ext h k refl)
    ∙ ap (λ r. send_read (recorder true) r (d, log)) (if_false _ _ e)

module _ (d : Device) (log : List Trans) (out inn : Trans) (oext iext : PktExt)
    (oe : out.ext ≡ some oext) (ot : oext.pkt_type ≡ bulk_out) (ie : inn.ext ≡ some iext)
    (it : iext.pkt_type ≡ bulk_in) where
  -- The device and the packets that it sent, after the three steps.
  out_turn_in_configured :
      d.configured ≡ true
      → out_turn_in out inn (d, log) ≡ (
        record (moved d (payload out)) { ep1_in = EpFifo.empty },
        (log ++ erdy d ∷ []) ++ bulk_answer d (payload out) ∷ [],
      )
  unfolding out_turn_in
  out_turn_in_configured c =
      ap (λ w. (from_proto_b_transport (recorder true) inn (loopback_turn (recorder true) w)).1)
        (after_out (d, log) out oext oe ot)
      ∙ ap (λ w. (from_proto_b_transport (recorder true) inn w).1)
          (after_turn d log (payload out) c)
      ∙ after_in d (log ++ erdy d ∷ []) (payload out) inn iext ie it

  out_turn_in_early :
      d.configured ≡ false
      → d.ep1_in.has_data ≡ false
      → out_turn_in out inn (d, log)
        ≡ (record (arrived d (payload out)) { out_ep_event = false }, log)
  unfolding out_turn_in
  out_turn_in_early c e =
      ap (λ w. (from_proto_b_transport (recorder true) inn (loopback_turn (recorder true) w)).1)
        (after_out (d, log) out oext oe ot)
      ∙ ap (λ w. (from_proto_b_transport (recorder true) inn w).1)
          (after_skip d log (payload out) c)
      ∙ after_none (record (arrived d (payload out)) { out_ep_event = false }) log inn iext ie it e

  -- On an enabled and configured device, over a protocol layer that answers nothing, the bytes of
  -- a bulk OUT come back, whole and unchanged, on the bulk IN that follows the thread's turn. The
  -- device sends that packet and before it one ERDY for endpoint 1, and both buffers are empty
  -- afterwards.
  pub loopback_returns :
      d.configured ≡ true
      → let (d', log') = out_turn_in out inn (d, log) in
        (log' ≡ log ++ erdy d ∷ bulk_answer d (payload out) ∷ [])
        × (d'.ep1_in ≡ EpFifo.empty)
        × (d'.ep2_out ≡ EpFifo.empty)
  loopback_returns c = rw (out_turn_in_configured c) (append_assoc log (erdy d ∷ []) _, refl, refl)

  -- On an enabled device that is not configured and has nothing in endpoint 1's buffer, over a
  -- protocol layer that answers nothing: bytes that come do not come back. The turn that their
  -- packet wakes uses up the event and leaves them in endpoint 2's buffer, the bulk IN sends
  -- nothing, and configuring the device then wakes no turn.
  pub early_packet_stuck :
      d.configured ≡ false
      → d.ep1_in.has_data ≡ false
      → let w = out_turn_in out inn (d, log) in
        let d' = (handle_set_configuration (recorder true) empty_setup w).0 in
        (w.1 ≡ log)
        × (d'.configured ≡ true)
        × (d'.ep2_out ≡ record { buffer = payload out; has_data = true })
        × (d'.out_ep_event ≡ false)
  unfolding handle_set_configuration
  early_packet_stuck c e = rw (out_turn_in_early c e) (refl, refl, refl, refl)
