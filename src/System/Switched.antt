-- ===== src/System/Switched.antt =====
-- src/usb3_host_controller.cpp and src/usb3_drd_controller.cpp, a role switch in the two milliseconds
-- that `enumerate_device` waits after SET_ADDRESS.
use usb3_otg.Base.{ℕ, ◌≡◌, refl, true, false, ◌==◌, if◌then◌else◌, suc, sym, subst, ap}
use usb3_otg.Types.{host, device, Role}
use usb3_otg.Types.Tlm.{Status}
use usb3_otg.Host.{Host}
use usb3_otg.Host.Enumerate.{enumerate_device}
use usb3_otg.Protocol
use usb3_otg.Peer
use usb3_otg.Device
use usb3_otg.System.{System, host_env, to_link}

-- The role manager and `role_switch_monitor` go to the device role in that wait, and no other
-- process runs in the others.
abbrev pub switching : ℕ → System → System
switching n s =
    if n == 2000000 then record s { role = device; host_enable = false; dev_enable = true } else s

-- What the host says after that.
pub record IsStillEnumerated (h : Host) (t : Host × System) : Type 0 where
  pub in_device_role : t.1.role ≡ device
  pub host_off : t.1.host_enable ≡ false
  pub enumerated : t.0.dev.enumerated ≡ true
  pub config : t.0.dev.active_config ≡ 1
  pub peer_configured : t.1.peer.configured ≡ true
  pub address_shown : t.0.dev_addr_out ≡ h.next_addr

module _ (fresh : Status) where
  from_host :
      (h : Host) (s : System) (depth : ℕ)
      → IsStillEnumerated h
          (enumerate_device (host_env fresh switching (suc depth)) (h, record s { role = host }))
  unfolding enumerate_device usb3_otg.Host.get_descriptor usb3_otg.Host.set_address
      usb3_otg.Host.set_configuration usb3_otg.Host.ctrl_transfer usb3_otg.Host.setup_stage
      usb3_otg.Host.data_stage usb3_otg.Host.status_stage Protocol.host_b_transport to_link
      Peer.b_transport usb3_otg.System.upstream_b_transport Protocol.link_b_transport
      usb3_otg.System.to_host usb3_otg.Host.from_protocol_b_transport usb3_otg.System.to_device
      usb3_otg.Host.Enumerate.note_device usb3_otg.Host.Enumerate.note_config
      Device.from_proto_b_transport
  from_host h s depth = record {
    in_device_role = refl;
    host_off = refl;
    enumerated = refl;
    config = refl;
    peer_configured = refl;
    address_shown = refl;
  }

  -- When the block goes to the device role in the host's wait after SET_ADDRESS, and no other
  -- process changes the system in its waits: the enumeration goes on with the host disabled, ends
  -- with the peer configured, and the host notes and reports an enumerated device.
  pub enumerate_device-IsStillEnumerated :
      (h : Host) (s : System) (depth : ℕ)
      → s.role ≡ host
      → IsStillEnumerated h (enumerate_device (host_env fresh switching (suc depth)) (h, s))
  enumerate_device-IsStillEnumerated h s depth r =
      let in_host : record s { role = host } ≡ s =
        ap (λ (x : Role). (record s { role = x })) (sym r) in
      subst
        (λ (t : System).
          IsStillEnumerated h (enumerate_device (host_env fresh switching (suc depth)) (h, t)))
        in_host (from_host h s depth)
