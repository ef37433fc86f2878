-- ===== src/Bench/Kernel.antt =====
-- One schedule of the simulation kernel for src/sc_main.cpp: in each wait of the script every thread
-- runs until it waits for something that does not come. The waits are long enough for that, but
-- for the microsecond after the flip of CC, which is as long as the wait of `role_switch_monitor`:
-- there the schedule lets the monitor finish first. The interrupt collector does not run; the
-- script reads nothing that it writes.
use usb3_otg.Base.{ℕ, suc, false, if◌then◌else◌}
use usb3_otg.Types.Tlm.{Status}
use usb3_otg.RoleManager.{detect, end_pulse}
use usb3_otg.Drd.Monitor.{on_edge, on_settled}
use usb3_otg.Host.{Host}
use usb3_otg.Host.Process.{main_turn, process_transfer_ring, Stop}
use usb3_otg.Host.Thread.{for_enable, for_trb}
use usb3_otg.Host.Refined.{phase_of}
use usb3_otg.System.{System, host_env}
use usb3_otg.System.Roles.{forward_inputs, wire}
use usb3_otg.Bench.{Bench}

-- `forward_inputs`, and the role manager's thread through its pulse.
unfoldable pub run_manager : Bench → Bench
run_manager b =
    let n = forward_inputs b.sig_cc_state b.sig_vbus b.net in
    if n.pending
    then (let m = detect n.cc n.vbus n.manager in
        record b {
          net = record n { pending = false; manager = end_pulse m };
          switch = wire n.manager m b.switch;
        })
    else record b { net = n }

-- `role_switch_monitor` through its microsecond, and the signals that it writes.
unfoldable pub run_monitor : Bench → Bench
run_monitor b =
    if b.switch.edge
    then (let (s, d) = on_settled b.switch.role (on_edge b.switch, b.drd) in
        record b {
          switch = s;
          drd = d;
          system = record (b.system) {
            role = s.role;
            host_enable = s.host_enable;
            dev_enable = s.dev_enable;
          };
        })
    else b

module _ (fresh : Status) (depth fuel : ℕ) where
  stopped : Stop × (Host × System) → Bench → Bench
  stopped (stop, (h, s)) b = record b { system = record s { host = h }; host_phase = phase_of stop }

  -- `host_main_process` from its wait for the enable port or for a request.
  unfoldable pub run_host : Bench → Bench
  unfolding stopped
  run_host b = elim b.host_phase [
    | for_enable ↦
        if b.system.host_enable
        then stopped
            (main_turn (host_env fresh (λ _ s. s) (suc depth)) fuel (b.system.host, b.system)) b
        else b
    | for_trb ↦
        if b.system.host.trb_event
        then stopped
            (process_transfer_ring (host_env fresh (λ _ s. s) (suc depth)) fuel
              (record (b.system.host) { trb_event = false }, b.system))
            b
        else b
    | _ ↦ b
  ]

  unfoldable pub settle : ℕ → Bench → Bench
  unfolding run_manager run_monitor run_host
  settle n b = run_host (run_monitor (run_manager b))
