-- ===== src/Pair.antt =====
-- src/usb3_drd_controller.cpp, two dual-role devices joined by a link: `protocol.to_link` of each is
-- bound to `upstream` of the other, as src/sc_main.cpp binds one of them to the peer.
pub mod Enumeration
pub mod Stale
pub mod Loopback
pub mod Race
mod Tests
use usb3_otg.Base.{ℕ, zero, suc, Bool}
use usb3_otg.Types.{Role}
use usb3_otg.Types.Tlm.{Socket, Status}
use usb3_otg.Protocol
use usb3_otg.Protocol.{Protocol, Ports}
use usb3_otg.Host
use usb3_otg.Host.{Host}
use usb3_otg.Device
use usb3_otg.Device.{Device}

-- The blocks of one dual-role device, and the signals between them that the calls read.
pub record Block : Type 0 where
  pub protocol : Protocol
  pub host : Host
  pub device : Device
  pub role : Role
  pub host_enable : Bool
  pub dev_enable : Bool

pub record Pair : Type 0 where
  pub near : Block
  pub far : Block

pub data Side : Type 0 where
  near_side far_side : Side

abbrev pub other : Side → Side
other near_side = far_side
other far_side = near_side

abbrev pub get : Side → Pair → Block
get near_side p = p.near
get far_side p = p.far

abbrev pub put : Side → Block → Pair → Pair
put near_side b p = record p { near = b }
put far_side b p = record p { far = b }

abbrev pub put_protocol : Side → Protocol → Pair → Pair
put_protocol side x p = put side (record (get side p) { protocol = x }) p

abbrev pub put_host : Side → Host → Pair → Pair
put_host side x p = put side (record (get side p) { host = x }) p

abbrev pub put_device : Side → Device → Pair → Pair
put_device side x p = put side (record (get side p) { device = x }) p

-- `protocol.to_host(host_ctrl.from_protocol)`.
unfoldable pub to_host : Side → Socket (Protocol × Pair)
to_host side t (x, p) =
    let q = put_protocol side x p in
    let (t', (h, q')) = Host.from_protocol_b_transport t ((get side q).host, q) in
    (t', ((get side q').protocol, put_host side h q'))

-- The transmit path of a protocol layer uses the link alone.
abbrev pub tx_ports : Side → Socket Pair → Ports Pair
tx_ports side link = record {
  to_link =
      λ t (x, p). let (t', q) = link t (put_protocol side x p) in (t', ((get side q).protocol, q));
  to_host = to_host side;
  to_device = λ t w. (t, w);
  current_role = λ p. (get side p).role;
}

module _ (fresh : Status) (pause : ℕ → Pair → Pair) where
  -- `dev_ctrl.to_protocol(protocol.from_device)`.
  abbrev pub device_env : Side → Socket Pair → Device.Env Pair
  device_env side link = record {
    to_protocol = λ t (d, p).
        let q = put_device side d p in
        let (t', (x, r)) =
          Protocol.device_b_transport (tx_ports side link) t ((get side q).protocol, q) in
        let s = put_protocol side x r in (t', ((get side s).device, s));
    enable = λ p. (get side p).dev_enable;
    pause = λ n (d, p). let q = pause n (put_device side d p) in ((get side q).device, q);
    fresh = fresh;
  }

  -- `protocol.to_device(dev_ctrl.from_protocol)`.
  unfoldable pub to_device : Side → Socket Pair → Socket (Protocol × Pair)
  to_device side link t (x, p) =
      let q = put_protocol side x p in
      let (t', (d, r)) =
        Device.from_proto_b_transport (device_env side link) t ((get side q).device, q) in
      (t', ((get side r).protocol, put_device side d r))

  abbrev pub ports : Side → Socket Pair → Ports Pair
  ports side link = record (tx_ports side link) { to_device = to_device side link }

  -- `upstream_b_transport` of the block on this side. Its device may send back while it handles the
  -- packet: so many calls from side to side may stand one inside the other, and any further one
  -- returns at once.
  unfoldable pub upstream_b_transport : ℕ → Side → Socket Pair
  upstream_b_transport zero side t p = (t, p)
  upstream_b_transport (suc depth) side t p =
      let back = upstream_b_transport depth (other side) in
      let (t', (x, q)) = Protocol.link_b_transport (ports side back) t ((get side p).protocol, p) in
      (t', put_protocol side x q)

  -- `host_ctrl.to_protocol(protocol.from_host)`.
  abbrev pub host_env : ℕ → Side → Host.Env Pair
  host_env depth side = record {
    to_protocol = λ t (h, p).
        let q = put_host side h p in
        let (t', (x, r)) =
          Protocol.host_b_transport (tx_ports side (upstream_b_transport depth (other side))) t
            ((get side q).protocol, q) in
        let s = put_protocol side x r in (t', ((get side s).host, s));
    enable = λ p. (get side p).host_enable;
    pause = λ n (h, p). let q = pause n (put_host side h p) in ((get side q).host, q);
    fresh = fresh;
  }
