-- ===== src/Host/Process.antt =====
-- src/usb3_host_controller.cpp, `process_transfer_ring` and `host_main_process`.
use usb3_otg.Base.{ℕ, zero, suc, Bool, true, false, none, some, [], replicate, if◌then◌else◌}
use usb3_otg.Types.{PktType, Dir, host_to_device, device_to_host, make_usb3_ext}
use usb3_otg.Types.Tlm.{Trans, read_command, write_command, packet}
use usb3_otg.Host.{Host, Env, no_device}
use usb3_otg.Host.Ring.{Trb, dequeue}
use usb3_otg.Host.Enumerate.{enumerate_device}

module _ {E : Type 0} (env : Env E) where
  open env use {to_protocol, pause, fresh}

  -- The transaction of a request in the ring.
  abbrev pub trb_trans : Trb → Trans
  trb_trans trb = elim trb.direction [
    | host_to_device ↦
        packet fresh write_command
          (make_usb3_ext PktType.bulk_out trb.dev_addr trb.endpoint trb.direction trb.ep_type)
          trb.payload
    | device_to_host ↦
        packet fresh read_command
          (make_usb3_ext PktType.bulk_in trb.dev_addr trb.endpoint trb.direction trb.ep_type)
          (replicate trb.trb_length 0)
  ]

  -- A response to a bulk IN goes to the receive buffer.
  unfoldable pub collect : Dir → Host × E → Host × E
  collect host_to_device w = w
  collect device_to_host (h, e) =
      if h.resp_valid
      then (record h { rx_buf = h.resp_data; resp_data = []; resp_valid = false }, e)
      else (h, e)

  -- The pulse of `transfer_done`.
  unfoldable pub announce : Bool → Host × E → Host × E
  announce false w = w
  announce true (h, e) =
      let (h', e') = pause 1 (record h { transfer_done = true }, e) in
      (record h' { transfer_done = false }, e')

  unfoldable pub run_trb : Trb → Host × E → Host × E
  unfolding collect announce
  run_trb trb w = announce trb.ioc (collect trb.direction (to_protocol (trb_trans trb) w).1)

-- Why the ring's loop stopped: the host was disabled, it waits for a request, or the fuel ran out.
pub data Stop : Type 0 where
  disabled waits no_fuel : Stop

module _ {E : Type 0} (env : Env E) where
  -- `while (enable.read())`, up to the wait for a request.
  unfoldable pub process_transfer_ring : ℕ → Host × E → Stop × (Host × E)
  process_transfer_ring zero w = (no_fuel, w)
  process_transfer_ring (suc fuel) (h, e) = elim (env.enable e) [
    | false ↦ (disabled, (h, e))
    | true ↦ elim (dequeue h.transfer_ring) [
      | none ↦ (waits, (h, e))
      | some (trb, queue) ↦
          process_transfer_ring fuel (run_trb env trb (record h { transfer_ring = queue }, e))
    ]
  ]

-- `host_main_process`: its writes before the loop, and a turn of the loop from an enabled port to
-- the next wait of the thread.
unfoldable pub boot : Host → Host
boot h = record h { transfer_done = false; enumeration_done = false; dev_addr_out = 0 }

module _ {E : Type 0} (env : Env E) where
  unfoldable pub main_turn : ℕ → Host × E → Stop × (Host × E)
  unfolding enumerate_device process_transfer_ring
  main_turn fuel (h, e) =
      process_transfer_ring env fuel (enumerate_device env (record h { dev = no_device }, e))
