-- ===== src/Bench/ReadBack.antt =====
-- src/sc_main.cpp, what `run_scenarios` reads from STATUS and what its last write leaves.
use usb3_otg.Base.{
  ℕ, ◌≡◌, ◌^◌, refl, Bool, true, false, List, bit_and, get_le32, ◌/◌, u8, le32, length,
  bit_and_mask, arith,
}
use usb3_otg.Types.{Role, host, device}
use usb3_otg.Types.Tlm.{Status}
use usb3_otg.Drd.{cfg_b_transport, Signals, build_status_reg, write_intr_status, Drd}
use usb3_otg.Bench.{
  Bench, signals, read_back, named_role, finish, flip, clear_all, check_loopback, tx_data,
}

abbrev printed : ℕ → Role
printed v = named_role (u8 (bit_and (get_le32 (le32 v) / 2 ^ 4) 0x03))

printed-build_status_reg :
    (r : Role) (c : Bool) (s : Signals)
    → s.role ≡ r
    → s.configured ≡ c
    → printed (build_status_reg s) ≡ r
unfolding build_status_reg
printed-build_status_reg host true s p q = rw (p, q)
printed-build_status_reg host false s p q = rw (p, q)
printed-build_status_reg device true s p q = rw (p, q)
printed-build_status_reg device false s p q = rw (p, q)
printed-build_status_reg Role.none true s p q = rw (p, q)
printed-build_status_reg Role.none false s p q = rw (p, q)

module _ (fresh : Status) (bytes : List ℕ) where
  -- The role that the script prints is the one that the role manager's port shows.
  pub read_back-current_role :
      (b : Bench) → (read_back fresh bytes b).0 ≡ b.net.manager.current_role
  unfolding read_back cfg_b_transport
  read_back-current_role b =
      printed-build_status_reg b.net.manager.current_role b.system.device.configured_port
        (signals b) refl refl

-- A write of ones to INTR_STATUS.
cleared :
    (d : Drd)
    → ((write_intr_status 0xFFFFFFFF d).intr_status ≡ 0)
      × ((write_intr_status 0xFFFFFFFF d).irq ≡ false)
unfolding write_intr_status
cleared d = ground (arith, bit_and_mask 0 d.intr_status)

module _ (fresh : Status) (bytes : List ℕ) (wait : ℕ → Bench → Bench) where
  -- What the script's end makes of the state after the loopback check.
  pub finish_lem :
      (b : Bench)
      → let (r, b') = finish fresh bytes wait b in
        (r.role ≡ (flip fresh bytes wait b).net.manager.current_role)
        × (r.loopback_ok ≡ check_loopback b.system.host.rx_buf tx_data)
        × (r.bytes_back ≡ length b.system.host.rx_buf)
        × (b'.drd.intr_status ≡ 0)
        × (b'.drd.irq ≡ false)
  unfolding finish clear_all cfg_b_transport
  finish_lem b =
      let x = wait 15000000 (read_back fresh bytes (flip fresh bytes wait b)).1 in
      let (none_left, low) =
        cleared (record (x.drd) { role_mgr = x.net.manager; role_request = x.net.pending }) in
      (read_back-current_role fresh bytes (flip fresh bytes wait b), refl, refl, none_left, low)
