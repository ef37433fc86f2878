-- ===== src/Pair/Tests.antt =====
-- The theorems on two connected blocks at concrete inputs.
use usb3_otg.Base.{◌≡◌, refl, false, [], ◌∷◌, arith, true}
use usb3_otg.Types.Tlm.{incomplete_response}
use usb3_otg.Types.{Role}
use usb3_otg.Protocol
use usb3_otg.Host
use usb3_otg.Host.{ctrl_transfer}
use usb3_otg.Host.Enumerate.{enumerate_device}
use usb3_otg.Host.Process.{main_turn, process_transfer_ring}
use usb3_otg.Device
use usb3_otg.Pair.{Block, near_side, host_env}
use usb3_otg.Pair.Enumeration.{idle, joined, IsEnumerated, enumerate_device-IsEnumerated}
use usb3_otg.Pair.Stale.{asking, silent, request, stale_status_received, stall_taken}
use usb3_otg.Pair.Loopback.{configured, out_turn_in, out_turn_in-returns}
use usb3_otg.Pair.Race.{racing, requested, resting, second_out_stuck}
use usb3_otg.Device.Thread.{for_event}

abbrev idle_block : Block
idle_block = record {
  protocol = Protocol.init;
  host = Host.init;
  device = Device.init;
  role = Role.none;
  host_enable = false;
  dev_enable = false;
}

enumerate_device-IsEnumerated_example : IsEnumerated idle_block idle_block (
    enumerate_device
      (host_env incomplete_response idle 2 near_side)
      (Host.init, joined idle_block idle_block))
enumerate_device-IsEnumerated_example =
    enumerate_device-IsEnumerated incomplete_response 0 idle_block idle_block

out_turn_in-returns_example :
    (out_turn_in incomplete_response 0 1
      (5 ∷ 6 ∷ [])
      64
      (configured idle_block idle_block)).0.rx_buf
    ≡ 5 ∷ 6 ∷ []
out_turn_in-returns_example =
    (out_turn_in-returns incomplete_response 0 idle_block idle_block 1 5 (6 ∷ []) 64).0

stale_status_received_example :
    (main_turn (host_env incomplete_response idle 2 near_side) 2 (
      (asking 1 64 idle_block).host,
      joined (asking 1 64 idle_block) (silent idle_block),
    )).1.0.rx_buf
    ≡ 0 ∷ []
stale_status_received_example =
    (stale_status_received incomplete_response 0 0 idle_block idle_block 1 64).1

-- An interface descriptor, which no device sends by itself.
stall_taken_example :
    (ctrl_transfer
      (host_env incomplete_response idle 2 near_side)
      1
      (request 0x80 0x0400 0 9)
      []
      false
      (Host.init, joined idle_block idle_block)).1
    ≡ 0 ∷ 0 ∷ 0 ∷ 0 ∷ []
unfolding Device.descriptor_response
stall_taken_example =
    (stall_taken incomplete_response 0 idle_block idle_block 1 0x80 0x0400 0 9 [] (omega arith)
      refl).1

second_out_stuck_example :
    (process_transfer_ring (racing incomplete_response 0) 3 (
      (requested 1 (5 ∷ []) (6 ∷ []) idle_block).host,
      (for_event, configured (requested 1 (5 ∷ []) (6 ∷ []) idle_block) (resting idle_block)),
    )).1.1.1.far.device.ep2_out
    ≡ record { buffer = 6 ∷ []; has_data = true }
second_out_stuck_example =
    (second_out_stuck incomplete_response 0 0 idle_block idle_block 1 (5 ∷ []) (6 ∷ [])).3
