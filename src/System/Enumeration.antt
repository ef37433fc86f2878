-- ===== src/System/Enumeration.antt =====
-- src/usb3_host_controller.cpp, `enumerate_device`, over the protocol layer and the testbench's peer.
use usb3_otg.Base.{
  ℕ, suc, ◌+◌, ◌%◌, ◌^◌, ◌≡◌, refl, true, false, u8, sym, subst, ap, ◌≢◌, ◌≤◌, arith,
}
use usb3_otg.Types.{host, Role}
use usb3_otg.Types.Tlm.{Status}
use usb3_otg.Host.{Host, DeviceInfo}
use usb3_otg.Host.Enumerate.{enumerate_device}
use usb3_otg.Protocol
use usb3_otg.Peer
use usb3_otg.System.{System, host_env, to_link}
use usb3_otg.System.Quiet.{IsQuiet, IsQuiet-elim}

-- What an enumeration that began with the host `h` in `s` has done in `t`, the host first.
pub record Enumerated (h : Host) (s : System) (t : Host × System) : Type 0 where
  pub info : t.0.dev ≡ record {
    addr = h.next_addr;
    vendor_id = 0xAB12;
    product_id = 0xCD34;
    num_configs = 1;
    active_config = 1;
    enumerated = true;
    speed = h.dev.speed;
  }
  pub address_shown : t.0.dev_addr_out ≡ h.next_addr
  pub address_used : t.0.next_addr ≡ u8 (h.next_addr + 1)
  pub no_response : t.0.resp_valid ≡ false
  pub pulse_over : t.0.enumeration_done ≡ false
  pub ring_kept : t.0.transfer_ring ≡ h.transfer_ring
  pub peer_address : t.1.peer.assigned_addr ≡ h.next_addr % 2 ^ 7
  pub peer_configured : t.1.peer.configured ≡ true
  pub same_role : t.1.role ≡ host
  pub enable_kept : t.1.host_enable ≡ s.host_enable

module _ (fresh : Status) where
  -- When no other process runs in the waits.
  alone :
      (h : Host) (s : System) (depth : ℕ)
      → Enumerated h
          (record s { role = host })
          (enumerate_device (host_env fresh (λ _ s. s) (suc depth)) (h, record s { role = host }))
  unfolding enumerate_device usb3_otg.Host.get_descriptor usb3_otg.Host.set_address
      usb3_otg.Host.set_configuration usb3_otg.Host.ctrl_transfer usb3_otg.Host.setup_stage
      usb3_otg.Host.data_stage usb3_otg.Host.status_stage Protocol.host_b_transport to_link
      Peer.b_transport usb3_otg.System.upstream_b_transport Protocol.link_b_transport
      usb3_otg.System.to_host usb3_otg.Host.from_protocol_b_transport
      usb3_otg.Host.Enumerate.note_device usb3_otg.Host.Enumerate.note_config
  alone h s depth = record {
    info = refl;
    address_shown = refl;
    address_used = refl;
    no_response = refl;
    pulse_over = refl;
    ring_kept = refl;
    peer_address = refl;
    peer_configured = refl;
    same_role = refl;
    enable_kept = refl;
  }

  -- In host mode, when no other process changes the system in the host's waits, and whatever happened
  -- before, an enumeration of the peer ends with the peer configured, with the identity and the
  -- configuration that its descriptors give noted in the host, and with the host's next address used:
  -- the host keeps all of it, the peer its low seven bits.
  pub enumerate_device-Enumerated :
      (pause : ℕ → System → System)
      → IsQuiet pause
      → (h : Host) (s : System) (depth : ℕ) → s.role ≡ host
      → Enumerated h s (enumerate_device (host_env fresh pause (suc depth)) (h, s))
  enumerate_device-Enumerated pause quiet h s depth r =
      let with_role : Role → System = λ x. record s { role = x } in
      let in_host : with_role host ≡ s = ap with_role (sym r) in
      subst
        (λ (t : System).
          Enumerated h t (enumerate_device (host_env fresh pause (suc depth)) (h, t)))
        in_host
        (IsQuiet-elim
          (λ (f : ℕ → System → System).
            Enumerated h (record s { role = host })
              (enumerate_device (host_env fresh f (suc depth)) (h, record s { role = host })))
          pause quiet (alone h s depth))

  -- In host mode, when no other process changes the system in the host's waits, and from a next
  -- address of 128 on: after the enumeration the host and the peer disagree on the peer's
  -- address.
  pub address_mismatch :
      (pause : ℕ → System → System)
      → IsQuiet pause
      → (h : Host) (s : System) (depth : ℕ) → s.role ≡ host
      → 128 ≤ h.next_addr
      → let t = (enumerate_device (host_env fresh pause (suc depth)) (h, s)) in
        t.0.dev.addr ≢ t.1.peer.assigned_addr
  address_mismatch pause quiet h s depth r big e =
      let x = enumerate_device-Enumerated pause quiet h s depth r in
      omega (arith, ap (λ (d : DeviceInfo). d.addr) x.info, x.peer_address, e)
