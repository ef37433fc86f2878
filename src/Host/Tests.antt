-- ===== src/Host/Tests.antt =====
-- The host controller's theorems and definitions at concrete inputs.
use usb3_otg.Base.{
  ◌≡◌, refl, true, none, some, List, [], ◌∷◌, arith, replicate, ◌++◌, false, Bool, map,
}
use usb3_otg.Types.{SetupPkt, device_to_host, host_to_device}
use usb3_otg.Host.{Host, init, pack_setup_packet, bulk_out, bulk_in, Env, no_device}
use usb3_otg.Host.Ring.{Trb, default_trb, enqueue_all, enqueue_all_lem, ring_depth}
use usb3_otg.Host.Setup.{unpack, unpack-pack_setup_packet}
use usb3_otg.Host.Process.{no_fuel, process_transfer_ring, trb_trans}
use usb3_otg.Host.Transfers.{
  recorder, Drains, process_transfer_ring_stops, process_transfer_ring-Drains, HasStopped,
}
use usb3_otg.Types.Tlm.{Trans, incomplete_response}
use usb3_otg.Host.Thread.{
  Net, net, at_head, for_trb, turns, pulse_over, outside, here, next, Reach, turn, begin_trb,
  request, deliver, end_pulse,
}
use usb3_otg.Host.Sent.{sent, queued, bulk_trb}
use usb3_otg.Host.Served.{Reach-sent}
use usb3_otg.Host.Refined.{phase_of, process_transfer_ring-Reach}
use usb3_otg.Host.Pulses.{sampler, process_transfer_ring-samples}
use usb3_otg.Host.Missed.{IsUnchanged, reenable_missed}

abbrev full : List Trb
full = replicate 256 default_trb

enqueue_all_lem_example : enqueue_all (default_trb ∷ []) full ≡ none
enqueue_all_lem_example = enqueue_all_lem (default_trb ∷ []) full (omega arith)

abbrev get_config : SetupPkt
get_config = record { request_type = 0x80; request = 6; value = 0x0200; index = 0; len = 255 }

config_on_wire : pack_setup_packet get_config ≡ 0x80 ∷ 6 ∷ 0 ∷ 2 ∷ 0 ∷ 0 ∷ 255 ∷ 0 ∷ []
unfolding pack_setup_packet
config_on_wire = refl

get_config_round_trip : unpack (pack_setup_packet get_config) ≡ get_config
get_config_round_trip =
    unpack-pack_setup_packet get_config
      (record { value_fits = omega arith; index_fits = omega arith; len_fits = omega arith })

-- A bulk OUT of two bytes and a bulk IN of four.
abbrev requests : List Trb
requests =
    record default_trb { dev_addr = 1; endpoint = 2; payload = 8 ∷ 9 ∷ []; trb_length = 2 }
    ∷ record default_trb { dev_addr = 1; endpoint = 1; direction = device_to_host; trb_length = 4 }
    ∷ []

bulk_out_queued :
    bulk_out 1 2 (8 ∷ 9 ∷ []) init
    ≡ some (record init {
      transfer_ring =
          record default_trb { dev_addr = 1; endpoint = 2; payload = 8 ∷ 9 ∷ []; trb_length = 2 }
          ∷ [];
      trb_event = true;
    })
unfolding bulk_out usb3_otg.Host.Ring.enqueue
bulk_out_queued = refl

process_transfer_ring_stops_example :
    HasStopped recorder
      (process_transfer_ring recorder 3 (record init { transfer_ring = requests }, []))
process_transfer_ring_stops_example =
    process_transfer_ring_stops recorder (record { sends = λ t w. refl; pauses = λ n w. refl }) 3
      (record init { transfer_ring = requests }, []) (omega arith)

process_transfer_ring-Drains_example :
    Drains requests []
      (process_transfer_ring recorder 3 (record init { transfer_ring = requests }, []))
process_transfer_ring-Drains_example =
    process_transfer_ring-Drains requests 3 (record init { transfer_ring = requests }) [] refl
      (omega arith)

-- The host works through both requests, waits, and works through one that comes then.
abbrev at_loop : Net (List Trans)
at_loop = record { host = record init { transfer_ring = requests }; rest = []; phase = at_head }

both : (u : Net (List Trans)) × Reach recorder true at_loop u
unfolding turn begin_trb usb3_otg.Host.Ring.dequeue usb3_otg.Host.Process.collect end_pulse
both = (
  _,
  next
      (next (next (next (next here (turns at_loop refl)) (pulse_over _ refl refl)) (turns _ refl))
        (pulse_over _ refl refl))
      (turns _ refl),
)

third : (u : Net (List Trans)) × Reach recorder true at_loop u
unfolding both usb3_otg.Host.enqueue_bulk_trb usb3_otg.Host.Ring.enqueue turn begin_trb
    usb3_otg.Host.Ring.dequeue usb3_otg.Host.Process.collect end_pulse
third = (
  _,
  next
      (next
        (next
          (next (next both.1 (request _ 1 2 host_to_device 1 (7 ∷ []) _ refl (λ e. cc) refl))
            (deliver _ refl refl))
          (turns _ refl))
        (pulse_over _ refl refl))
      (turns _ refl),
)

Reach-sent_example :
    sent third.1
    ≡ map (trb_trans recorder) (requests ++ bulk_trb 1 2 host_to_device 1 (7 ∷ []) ∷ [])
unfolding third both queued turn begin_trb usb3_otg.Host.enqueue_bulk_trb usb3_otg.Host.Ring.enqueue
    usb3_otg.Host.Ring.dequeue usb3_otg.Host.Process.collect end_pulse
Reach-sent_example =
    (Reach-sent recorder (record { sends = λ t w. refl; pauses = λ n w. refl }) third.1
        (λ p e. cc)).1
      refl refl

process_transfer_ring-Reach_example :
    let (stop, v) = process_transfer_ring recorder 3 (at_loop.host, []) in
    Reach recorder false at_loop (net (phase_of stop, v))
process_transfer_ring-Reach_example =
    process_transfer_ring-Reach recorder (record { sends = λ t w e. e; pauses = λ n w. refl }) 3
      (at_loop.host, []) refl

process_transfer_ring-samples_example :
    (process_transfer_ring sampler 3 (at_loop.host, [])).1.1 ≡ true ∷ true ∷ []
process_transfer_ring-samples_example =
    (process_transfer_ring-samples requests 3 at_loop.host [] refl (omega arith)).1

-- The enable port falls and rises while the host waits for a request.
abbrev switchable : Env Bool
switchable = record {
  to_protocol = λ t w. (t, w);
  enable = λ on. on;
  pause = λ n w. w;
  fresh = incomplete_response;
}

abbrev waiting : Net Bool
waiting = record {
  host = record init { dev = record no_device { addr = 1; enumerated = true } };
  rest = true;
  phase = for_trb;
}

reenable_missed_example : IsUnchanged waiting waiting
reenable_missed_example =
    reenable_missed switchable refl
      (next (next here (outside waiting false (λ e. cc) (λ e. cc)))
        (outside (record waiting { rest = false }) true (λ e. cc) (λ e. cc)))
      refl refl
