-- ===== src/Protocol/Tests.antt =====
-- The protocol layer's theorems and definitions at concrete inputs.
use usb3_otg.Base.{ℕ, ◌+◌, ◌≡◌, refl, ◌≢◌, some, List, [], ◌∷◌, arith, u32, get_or}
use usb3_otg.Types.{
  host, PktExt, setup, tp_ack, tp_stall, bulk_out, dp_data, stall_err, make_usb3_ext,
  host_to_device, control, PktType,
}
use usb3_otg.Types.Tlm.{Trans, packet, write_command, ok_response, incomplete_response, set_status}
use usb3_otg.Protocol.{
  Protocol, Ports, link_b_transport, host_b_transport, device_b_transport, uses_sequence,
}
use usb3_otg.Protocol.Numbering.{
  Origin, from_host, from_device, send_all, numbered, sequenced, numbers, send_all-numbered,
  numbers_distinct,
}
use usb3_otg.Protocol.Routing.{link_b_transport-deliver, inactive_unreached}

abbrev ext_of : PktType → PktExt
ext_of ty = make_usb3_ext ty 1 0 host_to_device control

abbrev plain : PktType → Trans
plain ty = packet incomplete_response write_command (ext_of ty) (7 ∷ [])

-- A host role; each controller answers that all is well and is counted.
abbrev counting : Ports (ℕ × ℕ)
counting = record {
  to_link = λ t w. (t, w);
  to_host = λ t w. (set_status ok_response t, (w.0, (1, w.1.1)));
  to_device = λ t w. (set_status ok_response t, (w.0, (w.1.0, 1)));
  current_role = λ _. host;
}

abbrev start : Protocol × (ℕ × ℕ)
start = (record { seq_num = 5 }, (0, 0))

stall_reaches_host : (link_b_transport counting (plain tp_stall) start).1.1 ≡ (1, 0)
unfolding link_b_transport
stall_reaches_host = refl

link_b_transport-deliver_example :
    link_b_transport counting (plain tp_stall) start
    ≡ counting.to_host
        (record (plain tp_stall) { ext = some (record (ext_of tp_stall) { code = stall_err }) })
        start
link_b_transport-deliver_example = link_b_transport-deliver counting (plain tp_stall) start

other_controller_unreached :
    link_b_transport (record counting { to_device = counting.to_link }) (plain dp_data) start
    ≡ link_b_transport counting (plain dp_data) start
other_controller_unreached =
    (inactive_unreached counting counting.to_link (plain dp_data) start).1 (λ e. cc)

abbrev traffic : List (Origin × Trans × PktExt)
traffic =
    (from_host, plain setup, ext_of setup)
    ∷ (from_device, plain tp_ack, ext_of tp_ack)
    ∷ (from_device, plain bulk_out, ext_of bulk_out)
    ∷ []

traffic-numbers :
    numbers (send_all traffic (record { seq_num = 0xFFFFFFFF }, [])).1 ≡ 0xFFFFFFFF ∷ 0 ∷ []
unfolding send_all numbers host_b_transport device_b_transport
traffic-numbers = refl

send_all-numbered_example :
    send_all traffic (record { seq_num = u32 5 }, [])
    ≡ (record { seq_num = u32 (5 + sequenced traffic) }, numbered 5 traffic)
send_all-numbered_example = send_all-numbered 5 traffic []

two_numbers_distinct :
    get_or (numbers (send_all traffic (record { seq_num = u32 5 }, [])).1) 0 0
    ≢ get_or (numbers (send_all traffic (record { seq_num = u32 5 }, [])).1) 1 0
unfolding sequenced uses_sequence
two_numbers_distinct = numbers_distinct 5 0 1 traffic (omega arith) (omega arith) (omega arith)
