-- ===== src/Bench/Passes.antt =====
-- src/sc_main.cpp, the run of the script.
use usb3_otg.Base.{ℕ, suc, ◌≡◌, refl, List, true, false, [], Option, none, some, ◌∙◌, length}
use usb3_otg.Types.{Role, device}
use usb3_otg.Types.Tlm.{Status}
use usb3_otg.RoleManager.Thread.{start}
use usb3_otg.Drd.{Drd, raise_irq, cfg_b_transport}
use usb3_otg.Drd.Monitor.{boot, on_edge, on_settled}
use usb3_otg.Host.{Host}
use usb3_otg.Host.Thread.{for_enable}
use usb3_otg.System.{System, to_link}
use usb3_otg.Bench.{
  Bench, run_scenarios, Report, pattern, check_loopback, tx_data, flip, finish, loop_back,
  clear_all, read_back,
}
use usb3_otg.Protocol
use usb3_otg.Peer
use usb3_otg.Bench.Kernel.{settle}
use usb3_otg.RoleManager.{detect, end_pulse, request_role}
use usb3_otg.System.Roles.{forward_inputs, wire}
use usb3_otg.Host.Process.{main_turn, process_transfer_ring, run_trb}
use usb3_otg.Host.Enumerate.{enumerate_device}
use usb3_otg.Host.Ring.{dequeue, enqueue}
use usb3_otg.Bench.ReadBack.{finish_lem}

-- A dual-role device that has no role yet, whatever its registers, its controllers and the peer hold,
-- with no request in the ring.
abbrev pub powered : Drd → Host → System → Bench
powered d h s = record {
  sig_cc_state = start.cc;
  sig_vbus = false;
  net = start;
  switch = boot;
  drd = d;
  system = record s {
    host = record h { transfer_ring = []; trb_event = false };
    role = Role.none;
    host_enable = false;
    dev_enable = false;
  };
  host_phase = for_enable;
}

-- The bytes came back, the role that is printed from STATUS is the device role, the device controller
-- is enabled alone, and no interrupt is left.
abbrev pub Passes : Option (Report × Bench) → Type 0
Passes none = ⊥
Passes (some (r, b)) =
    (r.loopback_ok ≡ true)
    × (r.bytes_back ≡ 64)
    × (r.role ≡ device)
    × (b.switch.dev_enable ≡ true)
    × (b.switch.host_enable ≡ false)
    × (b.drd.intr_status ≡ 0)
    × (b.drd.irq ≡ false)

-- After the loopback check.
module _ (fresh : Status) (bytes : List ℕ) (wait : ℕ → Bench → Bench) where
  abbrev IsLoopedBack : Option Bench → Type 0
  IsLoopedBack none = ⊥
  IsLoopedBack (some b) =
      (check_loopback b.system.host.rx_buf tx_data ≡ true)
      × (length b.system.host.rx_buf ≡ 64)
      × ((flip fresh bytes wait b).net.manager.current_role ≡ device)
      × ((finish fresh bytes wait b).1.switch.dev_enable ≡ true)
      × ((finish fresh bytes wait b).1.switch.host_enable ≡ false)

  passes_lem :
      (b : Bench) → IsLoopedBack (loop_back wait b) → Passes (run_scenarios fresh bytes wait b)
  unfolding run_scenarios
  passes_lem b p = go (loop_back wait b) p
    where
      go :
          (o : Option Bench)
          → IsLoopedBack o
          → Passes (elim o [ none ↦ none | some back ↦ some (finish fresh bytes wait back) ])
      go none p = p
      go (some back) (ok, size, role, on, off) =
          let (shown, checked, sized, status, low) = finish_lem fresh bytes wait back in
          (checked ∙ ok, sized ∙ size, shown ∙ role, on, off, status, low)

module _ (fresh : Status) (depth fuel : ℕ) where
  looped_back :
      (bytes : List ℕ) (d : Drd) (h : Host) (s : System)
      → let wait = settle fresh depth (suc (suc fuel)) in
        IsLoopedBack fresh bytes wait (loop_back wait (powered d h s))
  unfolding loop_back check_loopback flip finish clear_all read_back settle detect end_pulse
      forward_inputs wire on_edge on_settled main_turn enumerate_device process_transfer_ring
      raise_irq dequeue enqueue usb3_otg.Host.bulk_out usb3_otg.Host.bulk_in run_trb cfg_b_transport
      request_role pattern usb3_otg.Host.get_descriptor usb3_otg.Host.set_address
      usb3_otg.Host.set_configuration usb3_otg.Host.ctrl_transfer usb3_otg.Host.setup_stage
      usb3_otg.Host.data_stage usb3_otg.Host.status_stage Protocol.host_b_transport to_link
      Peer.b_transport usb3_otg.System.upstream_b_transport Protocol.link_b_transport
      usb3_otg.System.to_host usb3_otg.Host.from_protocol_b_transport
      usb3_otg.Host.Enumerate.note_device usb3_otg.Host.Enumerate.note_config
  looped_back bytes d h s = (refl, refl, refl, refl, refl)

  -- With a depth of one and more for the calls of the peer, fuel for two turns of the ring's loop and
  -- more, and the schedule of `Bench.Kernel`: whatever the registers, the memories and the
  -- addresses of the host, of the device controller and of the peer hold, with no role yet, no
  -- request in the ring and no notification pending, the script of the testbench finds the 64 bytes back unchanged, prints the
  -- device role, and ends with the device controller alone enabled and no interrupt left.
  pub run_scenarios-Passes :
      (bytes : List ℕ) (d : Drd) (h : Host) (s : System)
      → Passes (run_scenarios fresh bytes (settle fresh depth (suc (suc fuel))) (powered d h s))
  run_scenarios-Passes bytes d h s =
      passes_lem fresh bytes (settle fresh depth (suc (suc fuel))) (powered d h s)
        (looped_back bytes d h s)
