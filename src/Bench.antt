-- ===== src/Bench.antt =====
-- src/sc_main.cpp, `tb_top_t`: the testbench's signals and its thread `run_scenarios`, a script over the
-- dual-role device and the peer. The simulation kernel's part, what the rest of the system does
-- while the script waits for so many nanoseconds, is the argument `wait`.
pub mod Check
pub mod ReadBack
pub mod Kernel
pub mod Passes
mod Tests
use usb3_otg.Base.{
  ℕ, zero, suc, ◌/◌, ◌^◌, Bool, true, false, ◌&&◌, Option, none, some, List, [], ◌∷◌, length,
  get_or, le32, get_le32, u8, bit_and, ◌==◌, if◌then◌else◌,
}
use usb3_otg.Types.{Role, host, device, CcState, cc_disconnected, cc_ufp_attached, cc_dfp_attached}
use usb3_otg.Types.Tlm.{Trans, Status, Command, read_command, write_command, buffer}
use usb3_otg.RoleManager.Thread
use usb3_otg.RoleManager.Thread.{Net}
use usb3_otg.Drd
use usb3_otg.Drd.{Drd, Signals, cfg_b_transport}
use usb3_otg.Drd.Reg
use usb3_otg.Drd.Monitor
use usb3_otg.Drd.Monitor.{Switch}
use usb3_otg.Host
use usb3_otg.Host.{Host}
use usb3_otg.Host.Thread.{Phase, for_enable}
use usb3_otg.System
use usb3_otg.System.{System}

-- The signals of the testbench, the dual-role device with the peer, and where the host's thread
-- stands.
pub record Bench : Type 0 where
  pub sig_cc_state : CcState
  pub sig_vbus : Bool
  pub net : Net
  pub switch : Switch
  pub drd : Drd
  pub system : System
  pub host_phase : Phase

-- The testbench after its constructor and those of its modules.
unfoldable pub init : Bench
init = record {
  sig_cc_state = cc_disconnected;
  sig_vbus = false;
  net = Thread.start;
  switch = Monitor.boot;
  drd = Drd.init;
  system = System.init;
  host_phase = for_enable;
}

-- What the script finds out, and prints.
pub record Report : Type 0 where
  pub loopback_ok : Bool
  pub bytes_back : ℕ
  pub role : Role

-- The internal signals of the dual-role device.
abbrev pub signals : Bench → Signals
signals b = record {
  role = b.net.manager.current_role;
  dev_addr = b.system.host.dev_addr_out;
  configured = b.system.device.configured_port;
  enum_done = b.system.host.enumeration_done;
  xfer_done = b.system.host.transfer_done;
  bulk_irq = b.system.device.bulk_irq;
}

-- `cfg_init->b_transport(trans, d)`: the register file, with the one role manager that it writes to.
unfoldable pub cfg_access : Trans → Bench → Trans × Bench
cfg_access t b =
    let (t', _, d) =
      cfg_b_transport (signals b) t 0
        (record (b.drd) { role_mgr = b.net.manager; role_request = b.net.pending }) in
    (
      t',
      record b { drd = d; net = record (b.net) { manager = d.role_mgr; pending = d.role_request } },
    )

module _ (fresh : Status) where
  abbrev pub reg_trans : Command → ℕ → List ℕ → Trans
  reg_trans command address bytes = record {
    command = command;
    address = address;
    data_ptr = some bytes;
    data_length = 4;
    ext = none;
    status = fresh;
  }

  unfoldable pub write_reg : ℕ → ℕ → Bench → Bench
  unfolding cfg_access
  write_reg address val b = (cfg_access (reg_trans write_command address (le32 val)) b).1

  -- The register's value by way of a buffer that holds anything beforehand.
  unfoldable pub read_reg : ℕ → List ℕ → Bench → ℕ × Bench
  unfolding cfg_access
  read_reg address bytes b =
      let (t, b') = cfg_access (reg_trans read_command address bytes) b in
      (get_le32 (buffer t.data_ptr), b')

-- The 64-byte test pattern: `i` cast to a byte at each index, from `i` on.
unfoldable pub pattern : ℕ → ℕ → List ℕ
pattern i zero = []
pattern i (suc n) = u8 i ∷ pattern (suc i) n

abbrev pub tx_data : List ℕ
tx_data = pattern 0 64

-- The loop over the bytes that came back, from index `i` on.
unfoldable pub compare_bytes : List ℕ → ℕ → List ℕ → Bool
compare_bytes [] i tx = true
compare_bytes (x ∷ rx) i tx =
    let rest = compare_bytes rx (suc i) tx in if x == get_or tx i 0 then rest else false

unfoldable pub check_loopback : List ℕ → List ℕ → Bool
unfolding compare_bytes
check_loopback rx tx = if length rx == 64 then compare_bytes rx 0 tx else false

-- What is printed for the role field of STATUS.
abbrev pub named_role : ℕ → Role
named_role field = if field == 2 then device else if field == 1 then host else Role.none

abbrev pub set_host : Option Host → Bench → Option Bench
set_host none b = none
set_host (some h) b = some (record b { system = record (b.system) { host = h } })

module _ (wait : ℕ → Bench → Bench) where
  -- The block comes up as the host of the peer.
  unfoldable pub come_up : Bench → Bench
  come_up b =
      let low =
        wait 500 (wait 100 (record b { sig_cc_state = cc_ufp_attached; sig_vbus = false })) in
      wait 15000000 (record low { sig_vbus = true })

  -- The bulk loopback check; `none` where the ring has no room for a request.
  unfoldable pub send_out : Bench → Option Bench
  send_out b =
      let h = b.system.host in
      elim (set_host (Host.bulk_out h.dev.addr 2 tx_data h) b) [
        | none ↦ none
        | some b' ↦ some (wait 200000 b')
      ]

  unfoldable pub ask_in : Bench → Option Bench
  ask_in b =
      let h = b.system.host in
      elim (set_host (Host.bulk_in h.dev.addr 1 64 h) b) [
        | none ↦ none
        | some b' ↦ some (wait 200000 b')
      ]

  -- The first test.
  unfoldable pub loop_back : Bench → Option Bench
  unfolding come_up send_out ask_in
  loop_back b = elim (send_out (come_up b)) [ none ↦ none | some sent ↦ ask_in sent ]

module _ (fresh : Status) (status_bytes : List ℕ) where
  unfoldable pub read_back : Bench → Role × Bench
  unfolding read_reg
  read_back b =
      let (status, b') = read_reg fresh Reg.status status_bytes b in
      (named_role (u8 (bit_and (status / 2 ^ 4) 0x03)), b')

module _ (fresh : Status) (status_bytes : List ℕ) (wait : ℕ → Bench → Bench) where
  -- The second test: the flip to the device role, the forced role, and the clearing of
  -- the interrupts.
  unfoldable pub flip : Bench → Bench
  unfolding write_reg
  flip b =
      let flipped = wait 1000 (record b { sig_cc_state = cc_dfp_attached }) in
      wait 5000 (write_reg fresh Reg.role_ctrl 2 flipped)

  unfoldable pub clear_all : Bench → Bench
  unfolding write_reg
  clear_all b = write_reg fresh Reg.intr_status 0xFFFFFFFF (wait 15000000 b)

  unfoldable pub finish : Bench → Report × Bench
  unfolding flip read_back clear_all check_loopback
  finish b =
      let rx = b.system.host.rx_buf in
      let (role, read) = read_back fresh status_bytes (flip b) in
      (
        record { loopback_ok = check_loopback rx tx_data; bytes_back = length rx; role = role },
        clear_all read,
      )

  unfoldable pub run_scenarios : Bench → Option (Report × Bench)
  unfolding loop_back finish
  run_scenarios b = elim (loop_back wait b) [ none ↦ none | some back ↦ some (finish back) ]

-- The simulation runs until the script stops it.
unfoldable pub sc_main : Status → List ℕ → (ℕ → Bench → Bench) → Option (Report × Bench)
unfolding run_scenarios init
sc_main fresh status_bytes wait = run_scenarios fresh status_bytes wait init
