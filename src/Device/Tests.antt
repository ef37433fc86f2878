-- ===== src/Device/Tests.antt =====
-- The device controller's theorems and definitions at concrete inputs.
use usb3_otg.Base.{ℕ, ◌≡◌, refl, Bool, true, false, some, List, [], ◌∷◌, arith, length, get_or}
use usb3_otg.Types.{PktExt, default_ext, setup, bulk_out, bulk_in}
use usb3_otg.Types.Tlm.{Trans, packet, incomplete_response, write_command}
use usb3_otg.Device.{
  Device, blank, init, init_descriptors, bos, fit, string_descriptor, descriptor_response,
  from_proto_b_transport, handle_set_configuration,
}
use usb3_otg.Device.Descriptors.{dev_desc_to_bytes}
use usb3_otg.Device.Replies.{recorder, Answered, length-descriptor_response, setup-Answered}
use usb3_otg.Device.Blob.{walk, listed, init_descriptors-walk}
use usb3_otg.Device.Effects.{IsQuiet, from_proto_effect, loopback_turn_effect, turn_effect}
use usb3_otg.Device.Lifetime.{
  Event, receives, turns, run_events, IsValid, run_events-IsValid, run_configured,
}
use usb3_otg.Device.Loopback.{out_turn_in, erdy, bulk_answer, loopback_returns, early_packet_stuck}
use usb3_otg.Device.Thread.{
  Net, for_event, receive, wake, here, next, Reach, begin_turn, finish, finish-begin_turn,
}
use usb3_otg.Device.Moved.{IsAtRest, IsMoved, last_bytes, Reach-IsMoved}
use usb3_otg.Device.Missed.{IsBulkOut, IsStuck, after_pulse, packet_missed}
use usb3_otg.Device.Bytes.{are_bytes-IsBytes}
use usb3_otg.Device.Wire.{Holds, run_events-Holds}

abbrev request : ℕ → ℕ → ℕ → PktExt
request code value len = record default_ext {
  pkt_type = setup;
  setup_pkt = record { request_type = 0; request = code; value = value; index = 0; len = len };
}

abbrev carrying : PktExt → List ℕ → Trans
carrying ext bytes = packet incomplete_response write_command ext bytes

abbrev out : Trans
out = carrying (record default_ext { pkt_type = bulk_out }) (1 ∷ 2 ∷ 3 ∷ [])

abbrev inn : Trans
inn = carrying (record default_ext { pkt_type = bulk_in }) []

-- The first nine bytes of the configuration, as a host reads them first.
config_head :
    descriptor_response init (request 6 0x0200 9).setup_pkt
    ≡ some (9 ∷ 2 ∷ 44 ∷ 0 ∷ 1 ∷ 1 ∷ 0 ∷ 0xC0 ∷ 0 ∷ [])
unfolding descriptor_response init fit
config_head = refl

serial_number :
    descriptor_response init (request 6 0x0303 255).setup_pkt
    ≡ some (14 ∷ 3 ∷ b'S' ∷ 0 ∷ b'N' ∷ 0 ∷ b'-' ∷ 0 ∷ b'0' ∷ 0 ∷ b'0' ∷ 0 ∷ b'1' ∷ 0 ∷ [])
unfolding descriptor_response string_descriptor fit
serial_number = refl

-- The BOS descriptor states 22 bytes and has 15.
bos_states_more : (get_or bos 2 0 ≡ 22) × (length bos ≡ 15)
bos_states_more = (refl, refl)

-- A host that asks for eight bytes of the device descriptor is sent eighteen.
length-descriptor_response_example : length (dev_desc_to_bytes init.dev_desc) ≡ 18
unfolding descriptor_response init
length-descriptor_response_example =
    (length-descriptor_response init (request 6 0x0100 8).setup_pkt _ refl).1 refl

setup-Answered_example :
    let (t, w) = from_proto_b_transport (recorder true) (carrying (request 77 0 0) []) (init, []) in
    Answered init [] w.1 t.status
setup-Answered_example =
    setup-Answered init [] (carrying (request 77 0 0) []) (request 77 0 0) refl refl

init_descriptors-walk_example : walk (init_descriptors blank).config_blob ≡ some (listed blank)
init_descriptors-walk_example =
    (init_descriptors-walk blank (record {
      of_config = refl;
      of_interface = refl;
      of_ep1 = refl;
      of_ep1_comp = refl;
      of_ep2 = refl;
      of_ep2_comp = refl;
    })).0

recorder-IsQuiet : (on : Bool) → IsQuiet (recorder on)
recorder-IsQuiet on = record { sends = λ t w. refl; pauses = λ n w. refl }

from_proto_effect_example :
    (from_proto_b_transport (recorder true) (carrying (request 5 0x85 0) []) (init, [])).1.0
    ≡ record init { assigned_addr = 5 }
from_proto_effect_example =
    from_proto_effect (recorder true) (recorder-IsQuiet true) (carrying (request 5 0x85 0) [])
      (init, [])

blank_turn : (usb3_otg.Device.loopback_turn (recorder true) (blank, [])).0 ≡ turn_effect blank
blank_turn = loopback_turn_effect (recorder true) (recorder-IsQuiet true) (blank, [])

abbrev history : List Event
history = receives (carrying (request 9 1 0) []) ∷ receives out ∷ turns ∷ receives inn ∷ []

blank-IsValid : IsValid blank
blank-IsValid = record {
  addr_fits = omega arith;
  port_shows = refl;
  ep1_clear = λ _. refl;
  ep2_clear = λ _. refl;
}

run_events-IsValid_example : IsValid (run_events (recorder true) history (blank, [])).0
run_events-IsValid_example =
    run_events-IsValid (recorder true) (recorder-IsQuiet true) history (blank, []) blank-IsValid

run_configured_example :
    (run_events (recorder true) (receives out ∷ turns ∷ []) (blank, [])).0.configured ≡ false
run_configured_example =
    (run_configured (recorder true) (recorder-IsQuiet true) (receives out ∷ turns ∷ [])
        (blank, [])).1
      (λ e. cc, (λ e. e, tt))

abbrev ready : Device
ready = record blank { configured = true; configured_port = true; assigned_addr = 4 }

loopback_answers :
    (out_turn_in out inn (ready, [])).1 ≡ erdy ready ∷ bulk_answer ready (1 ∷ 2 ∷ 3 ∷ []) ∷ []
loopback_answers =
    (loopback_returns ready [] out inn (record default_ext { pkt_type = bulk_out })
      (record default_ext { pkt_type = bulk_in }) refl refl refl refl refl).0

early_packet_stuck_example : (out_turn_in out inn (blank, [])).1 ≡ []
early_packet_stuck_example =
    (early_packet_stuck blank [] out inn (record default_ext { pkt_type = bulk_out })
      (record default_ext { pkt_type = bulk_in }) refl refl refl refl refl refl).0

-- A bulk OUT and the turn that it wakes.
abbrev at_rest : Net (List Trans)
at_rest = record { device = ready; outside = []; waiting = for_event }

ready-IsAtRest : IsAtRest at_rest
ready-IsAtRest = record {
  configured = refl;
  ep1_empty = refl;
  ep2_empty = refl;
  no_pulse = refl;
  waiting = refl;
}

looped :
    (u : Net (List Trans)) × Reach (recorder true) false at_rest u × (u.device.out_ep_event ≡ false)
unfolding from_proto_b_transport begin_turn usb3_otg.Device.EpFifo.read
looped = (_, next (next here (receive at_rest out)) (wake _ refl refl), refl)

Reach-IsMoved_example : IsMoved (last_bytes looped.1) looped.0.waiting looped.0.device
Reach-IsMoved_example =
    Reach-IsMoved (recorder true) (recorder-IsQuiet true) at_rest ready-IsAtRest looped.1 refl
      looped.2

finish-begin_turn_example :
    finish (recorder true) (begin_turn (recorder true) (ready, []))
    ≡ usb3_otg.Device.loopback_turn (recorder true) (ready, [])
finish-begin_turn_example = finish-begin_turn (recorder true) (ready, [])

out-IsBulkOut : IsBulkOut out
out-IsBulkOut = record {
  ext = record default_ext { pkt_type = bulk_out };
  carried = refl;
  is_out = refl;
}

packet_missed_example : IsStuck (1 ∷ 2 ∷ 3 ∷ []) (after_pulse (recorder true) out out at_rest)
packet_missed_example =
    (packet_missed (recorder true) (recorder-IsQuiet true) (λ _. refl) out out at_rest out-IsBulkOut
      out-IsBulkOut ready-IsAtRest).1

-- The device after its constructor holds bytes, and so do the packets of the history.
run_events-Holds_example : Holds (run_events (recorder true) history (init, []))
unfolding init dev_desc_to_bytes
run_events-Holds_example =
    run_events-Holds true history (init, [])
      (tt, (are_bytes-IsBytes (1 ∷ 2 ∷ 3 ∷ []) refl, (tt, tt)))
      (
        omega arith,
        tt,
        tt,
        are_bytes-IsBytes init.config_blob refl,
        are_bytes-IsBytes (dev_desc_to_bytes init.dev_desc) refl,
        tt,
      )
