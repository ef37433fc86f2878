-- ===== src/System.antt =====
-- src/usb3_drd_controller.cpp, `bind_internal` and `upstream_b_transport`, and the bindings of
-- `tb_top_t` in src/sc_main.cpp: the blocks of the dual-role device connected to each other and to
-- the testbench's peer. Each block has its own state and sees the others through the whole system.
pub mod Enumeration
pub mod Quiet
pub mod Loop
pub mod Bulk
pub mod Scenario
pub mod Roles
pub mod Asked
pub mod Descriptors
pub mod Isolation
pub mod Switched
pub mod Interrupts
mod Tests
use usb3_otg.Base.{ℕ, zero, suc, Bool, true, false}
use usb3_otg.Types.{Role}
use usb3_otg.Types.Tlm.{Trans, Socket, Status}
use usb3_otg.Protocol
use usb3_otg.Protocol.{Protocol, Ports}
use usb3_otg.Host
use usb3_otg.Host.{Host}
use usb3_otg.Device
use usb3_otg.Device.{Device}
use usb3_otg.Peer
use usb3_otg.Peer.{Peer}

-- The blocks, the peer, and the signals between them that the calls read.
pub record System : Type 0 where
  pub protocol : Protocol
  pub host : Host
  pub device : Device
  pub peer : Peer
  pub role : Role
  pub host_enable : Bool
  pub dev_enable : Bool

-- The blocks after their constructors, and the signals at their initial values.
unfoldable pub init : System
init = record {
  protocol = Protocol.init;
  host = Host.init;
  device = Device.init;
  peer = Peer.init;
  role = Role.none;
  host_enable = false;
  dev_enable = false;
}

-- `protocol.to_host(host_ctrl.from_protocol)`.
unfoldable pub to_host : Socket (Protocol × System)
to_host t (p, s) =
    let (t', (h, s')) = Host.from_protocol_b_transport t (s.host, record s { protocol = p }) in
    (t', (s'.protocol, record s' { host = h }))

-- The transmit path of the protocol layer uses the link alone.
abbrev pub tx_ports : Socket (Protocol × System) → Ports System
tx_ports link = record {
  to_link = link;
  to_host = to_host;
  to_device = λ t w. (t, w);
  current_role = λ s. s.role;
}

module _ (fresh : Status) (pause : ℕ → System → System) where
  -- `dev_ctrl.to_protocol(protocol.from_device)`.
  abbrev pub device_env : Socket (Protocol × System) → Device.Env System
  device_env link = record {
    to_protocol = λ t w.
        let (t', (p, s)) =
          Protocol.device_b_transport (tx_ports link) t
            (w.1.protocol, record (w.1) { device = w.0 }) in
        (t', (s.device, record s { protocol = p }));
    enable = λ s. s.dev_enable;
    pause = λ n w. let s = pause n (record (w.1) { device = w.0 }) in (s.device, s);
    fresh = fresh;
  }

  -- `protocol.to_device(dev_ctrl.from_protocol)`.
  unfoldable pub to_device : Socket (Protocol × System) → Socket (Protocol × System)
  to_device link t (p, s) =
      let (t', (d, s')) =
        Device.from_proto_b_transport (device_env link) t (s.device, record s { protocol = p }) in
      (t', (s'.protocol, record s' { device = d }))

  abbrev pub ports : Socket (Protocol × System) → Ports System
  ports link = record {
    to_link = link;
    to_host = to_host;
    to_device = to_device link;
    current_role = λ s. s.role;
  }

  -- `m_to_protocol_link(protocol.from_link)`.
  unfoldable pub upstream_b_transport : Socket (Protocol × System) → Socket System
  upstream_b_transport link t s =
      let (t', (p, s')) = Protocol.link_b_transport (ports link) t (s.protocol, s) in
      (t', record s' { protocol = p })

  -- `peer.to_drd(dut.upstream)`.
  abbrev pub peer_env : Socket (Protocol × System) → Peer.Env System
  peer_env link = record {
    to_drd = λ t w.
        let (t', s) = upstream_b_transport link t (record (w.1) { peer = w.0 }) in
        (t', (s.peer, s));
    fresh = fresh;
  }

  -- `dut.protocol.to_link(peer.from_drd)`. The peer calls back into the device, which may send again:
  -- so many such calls may stand one inside the other, and any further one returns at once.
  unfoldable pub to_link : ℕ → Socket (Protocol × System)
  to_link zero t w = (t, w)
  to_link (suc depth) t (p, s) =
      let (t', (x, s')) =
        Peer.b_transport (peer_env (to_link depth)) t (s.peer, record s { protocol = p }) in
      (t', (s'.protocol, record s' { peer = x }))

  -- `host_ctrl.to_protocol(protocol.from_host)`.
  abbrev pub host_env : ℕ → Host.Env System
  host_env depth = record {
    to_protocol = λ t w.
        let (t', (p, s)) =
          Protocol.host_b_transport (ports (to_link depth)) t
            (w.1.protocol, record (w.1) { host = w.0 }) in
        (t', (s.host, record s { protocol = p }));
    enable = λ s. s.host_enable;
    pause = λ n w. let s = pause n (record (w.1) { host = w.0 }) in (s.host, s);
    fresh = fresh;
  }
