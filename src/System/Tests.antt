-- ===== src/System/Tests.antt =====
-- The connected system's theorems and definitions at concrete inputs.
use usb3_otg.Base.{
  ◌≡◌, ◌≢◌, refl, true, false, some, [], ◌∷◌, arith, get_or, length, replicate, ◌↔◌, inl,
}
use usb3_otg.Types.{host, device, setup, default_ext, cc_ufp_attached}
use usb3_otg.Types.Tlm.{incomplete_response, Trans, write_command, packet}
use usb3_otg.Host
use usb3_otg.Host.{Host}
use usb3_otg.Device
use usb3_otg.Peer
use usb3_otg.System.{System, host_env, upstream_b_transport, to_link}
use usb3_otg.Host.Enumerate.{enumerate_device}
use usb3_otg.Host.Process.{process_transfer_ring, main_turn}
use usb3_otg.System.Enumeration.{Enumerated, enumerate_device-Enumerated, address_mismatch}
use usb3_otg.System.Loop.{LoopedBack, loopback_out, loopback_in}
use usb3_otg.System.Bulk.{request_loopback, bulk_loopback}
use usb3_otg.System.Isolation.{Kept, upstream_b_transport-Kept}
use usb3_otg.System.Descriptors.{GotDescriptor, get_descriptor-GotDescriptor}
use usb3_otg.System.Quiet.{idle}
use usb3_otg.Drd.{Drd, raise_irq, intr_role_changed}
use usb3_otg.RoleManager.{desired_role, init, detect, end_pulse}
use usb3_otg.RoleManager.Thread.{Allows, Net, start, inputs, wake, pulse_over}
use usb3_otg.Drd.Monitor.{Switch, boot, settling, see, settle, on_edge, on_settled}
use usb3_otg.System.Roles.{manages, monitors, wire, enable_follows_port, Reach, next, here}
use usb3_otg.System.Scenario.{cleared, main_turn-Enumerated}
use usb3_otg.System.Switched.{switching, IsStillEnumerated, enumerate_device-IsStillEnumerated}
use usb3_otg.System.Interrupts.{irq_env, calm, in_host, IsAnnounced, enumerate_device-IsAnnounced}

-- The system after the host has been switched on.
abbrev started : System
started = record {
  protocol = record { seq_num = 0 };
  host = Host.init;
  device = Device.init;
  peer = Peer.init;
  role = host;
  host_enable = true;
  dev_enable = false;
}

enumerate_device-Enumerated_example :
    Enumerated started.host started
      (enumerate_device (host_env incomplete_response idle 3) (started.host, started))
enumerate_device-Enumerated_example =
    enumerate_device-Enumerated incomplete_response idle (λ n t. refl) started.host started 2 refl

-- The same after 199 enumerations.
abbrev worn : System
worn = record started { host = record Host.init { next_addr = 200 } }

worn_addresses_differ :
    (enumerate_device (host_env incomplete_response idle 3) (worn.host, worn)).0.dev.addr
    ≢ (enumerate_device
        (host_env incomplete_response idle 3)
        (worn.host, worn)).1.peer.assigned_addr
worn_addresses_differ =
    address_mismatch incomplete_response idle (λ n t. refl) worn.host worn 2 refl (omega arith)

request_loopback_runs :
    (h : Host) × (request_loopback 1 (7 ∷ 8 ∷ 9 ∷ []) 512 Host.init ≡ some h)
    × LoopedBack
        (7 ∷ 8 ∷ 9 ∷ [])
        h
        started
        (process_transfer_ring (host_env incomplete_response idle 3) 5 (h, started))
request_loopback_runs =
    bulk_loopback incomplete_response idle (λ n t. refl) started 2 2 1 512 7 (8 ∷ 9 ∷ []) refl refl
      refl

-- The device is on, and the peer asks for its device descriptor.
abbrev as_device : System
as_device = record started { role = device; host_enable = false; dev_enable = true }

abbrev request : Trans
request =
    packet incomplete_response write_command
      (record default_ext {
        pkt_type = setup;
        setup_pkt = record {
          request_type = 0x80;
          request = 6;
          value = 0x0100;
          index = 0;
          len = 18;
        };
      })
      []

upstream_b_transport-Kept_example :
    Kept device as_device
      (upstream_b_transport incomplete_response idle
        (to_link incomplete_response idle 3)
        request
        as_device).1
upstream_b_transport-Kept_example =
    upstream_b_transport-Kept incomplete_response idle 3 request as_device (λ n t k. k)

-- The configuration descriptor of the peer states more bytes than it has, and so does the BOS.
cfg_states_more :
    (get_or Peer.make_cfg_desc 2 0 ≡ 49)
    × (length Peer.make_cfg_desc ≡ 44)
    × (get_or Peer.bos 2 0 ≡ 22)
    × (length Peer.bos ≡ 15)
cfg_states_more = (refl, refl, refl, refl)

get_descriptor-GotDescriptor_example :
    GotDescriptor Peer.make_cfg_desc [] started
      (Host.get_descriptor (host_env incomplete_response idle 3) 1 2 0 [] (started.host, started))
get_descriptor-GotDescriptor_example =
    get_descriptor-GotDescriptor incomplete_response idle (λ n t. refl) started 2 1 2 0 [] refl refl
      (omega arith) (omega arith)

-- A host port is attached: the role manager takes the host role, and the monitor enables the host.
abbrev registers : Drd
registers = record {
  regs = replicate 8 0;
  intr_enable = 0xFFFFFFFF;
  intr_status = 0;
  irq = false;
  role_mgr = init;
  role_request = false;
}

abbrev port_only : Allows
port_only = record { requests = false; drops = false }

abbrev attached : Net
attached = record { cc = cc_ufp_attached; vbus = true; pending = true; manager = init }

abbrev taken : Net
taken = record attached { pending = false; manager = detect cc_ufp_attached true init }

abbrev settled : Net
settled = record taken { manager = end_pulse taken.manager }

abbrev in_switch : Switch
in_switch = record boot { role = host; phase = settling host }

abbrev hosting : Net × (Switch × Drd)
hosting = (
  settled,
  (record boot { host_enable = true; role = host }, raise_irq intr_role_changed registers),
)

Reach-hosting : Reach port_only false (start, (boot, registers)) hosting
unfolding detect end_pulse on_edge on_settled wire
Reach-hosting =
    next
      (next
        (next
          (next
            (next here (
              manages start attached boot registers
                (inputs start cc_ufp_attached true (inl (λ e. cc)))))
            (manages attached taken boot registers (wake attached refl refl)))
          (monitors taken _ (in_switch, registers) (see _ registers refl refl) refl))
        (manages taken settled in_switch registers (pulse_over taken refl refl)))
      (monitors settled _ _ (settle in_switch registers host refl refl) refl)

enable_follows_port_example :
    (hosting.1.0.host_enable ≡ true) ↔ (desired_role cc_ufp_attached true ≡ host)
unfolding detect end_pulse
enable_follows_port_example = (enable_follows_port refl refl Reach-hosting refl refl refl).0

-- Both requests of a loopback are queued before the host is switched on.
abbrev queued : System
queued = record started {
  host = record Host.init {
    transfer_ring = loopback_out 1 (7 ∷ 8 ∷ 9 ∷ []) ∷ loopback_in 1 512 ∷ [];
  };
}

main_turn-Enumerated_example :
    let (h, s) =
      enumerate_device (host_env incomplete_response idle 3) (cleared queued.host, queued) in
    Enumerated (cleared queued.host) queued (h, s)
    × LoopedBack
        (7 ∷ 8 ∷ 9 ∷ [])
        h
        s
        (main_turn (host_env incomplete_response idle 3) 5 (queued.host, queued))
main_turn-Enumerated_example =
    main_turn-Enumerated incomplete_response idle (λ n t. refl) queued 2 2 1 512 7 (8 ∷ 9 ∷ []) refl
      refl refl

enumerate_device-IsStillEnumerated_example :
    IsStillEnumerated started.host
      (enumerate_device (host_env incomplete_response switching 3) (started.host, started))
enumerate_device-IsStillEnumerated_example =
    enumerate_device-IsStillEnumerated incomplete_response started.host started 2 refl

enumerate_device-IsAnnounced_example :
    IsAnnounced Host.init registers
      (enumerate_device
        (irq_env incomplete_response 2)
        (calm Host.init, (in_host started, registers))).1.1
enumerate_device-IsAnnounced_example =
    enumerate_device-IsAnnounced incomplete_response 1 Host.init started registers refl
