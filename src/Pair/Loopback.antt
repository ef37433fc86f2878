-- ===== src/Pair/Loopback.antt =====
-- src/usb3_host_controller.cpp over src/usb3_device_controller.cpp: bulk data from the host of one
-- dual-role device through the device controller of another and back.
use usb3_otg.Base.{ℕ, suc, ◌≡◌, refl, true, false, ◌∷◌, List, ap, ◌∙◌, take-length, u32, ◌+◌}
use usb3_otg.Types.{host, device, PktExt, make_usb3_ext, bulk_in, device_to_host, bulk}
use usb3_otg.Types.Tlm.{Status}
use usb3_otg.Protocol
use usb3_otg.Host.{Host, Env}
use usb3_otg.Host.Process.{run_trb, announce, collect}
use usb3_otg.Device
use usb3_otg.Device.{Device, loopback_turn}
use usb3_otg.Device.EpFifo
use usb3_otg.System.Loop.{loopback_out, loopback_in}
use usb3_otg.Pair.{
  Block, Pair, near_side, far_side, put_host, put_device, host_env, device_env,
  upstream_b_transport,
}
use usb3_otg.Pair.Enumeration.{idle}
use usb3_otg.Host.Response.{respond}

-- The near block as the host and the far one as the device, switched on and configured.
abbrev pub configured : Block → Block → Pair
configured n f = record {
  near = record n { role = host };
  far = record f {
    role = device;
    dev_enable = true;
    device = record (f.device) { configured = true };
  };
}

-- The pair after the bulk OUT, the host first, and after the turn of the device's thread.
module _ (n f : Block) where
  abbrev lowered : Host
  lowered = record (n.host) { transfer_done = false }

  abbrev sender : Host → Block
  sender h = record n {
    role = host;
    protocol = record { seq_num = u32 (n.protocol.seq_num + 1) };
    host = h;
  }

  abbrev receiver : Device → Block
  receiver d = record f { role = device; dev_enable = true; device = d }

  abbrev after_out : List ℕ → Host × Pair
  after_out bytes = (
    lowered,
    record {
      near = sender (record (n.host) { transfer_done = true });
      far = receiver (record (f.device) {
        configured = true;
        ep2_out = record { buffer = bytes; has_data = true };
        out_ep_event = true;
      });
    },
  )

  abbrev after_turn : List ℕ → Pair
  after_turn bytes = record {
    near = sender lowered;
    far = receiver (record (f.device) {
      configured = true;
      ep2_out = EpFifo.empty;
      ep1_in = record { buffer = bytes; has_data = true };
      out_ep_event = false;
      bulk_irq = false;
    });
  }

module _ (fresh : Status) (depth : ℕ) where
  abbrev near_env : Env Pair
  near_env = host_env fresh idle (suc (suc depth)) near_side

  -- A turn of the far device's thread, given the near host's state.
  unfoldable pub far_turn : Host × Pair → Pair
  unfolding loopback_turn
  far_turn (h, q) =
      let r = put_host near_side h q in
      let link = upstream_b_transport fresh idle (suc depth) near_side in
      let (d, s) = loopback_turn (device_env fresh idle far_side link) (r.far.device, r) in
      put_device far_side d s

  -- A bulk OUT of the near host, the turn of the far device's thread, and a bulk IN.
  unfoldable pub out_turn_in : ℕ → List ℕ → ℕ → Pair → Host × Pair
  unfolding run_trb far_turn
  out_turn_in addr bytes len p =
      let t = far_turn (run_trb near_env (loopback_out addr bytes) (p.near.host, p)) in
      run_trb near_env (loopback_in addr len) (t.near.host, t)

  module _ (n f : Block) (addr b : ℕ) (bs : List ℕ) (len : ℕ) where
    out_step :
        run_trb near_env (loopback_out addr (b ∷ bs)) (n.host, configured n f)
        ≡ after_out n f (b ∷ bs)
    unfolding run_trb Protocol.host_b_transport upstream_b_transport Protocol.link_b_transport
        usb3_otg.Pair.to_device Device.from_proto_b_transport
    out_step = ap (λ xs. after_out n f (b ∷ xs)) (take-length bs)

    turn_step : far_turn (after_out n f (b ∷ bs)) ≡ after_turn n f (b ∷ bs)
    unfolding far_turn loopback_turn EpFifo.read upstream_b_transport Protocol.link_b_transport
        Protocol.device_b_transport
    turn_step = refl

    -- The end of the bulk IN, given the host once it has the response.
    abbrev ended : Host → Host × Pair
    ended h = announce near_env true (
        collect near_env device_to_host (
          h,
          record {
            near = record n {
              role = host;
              protocol = record { seq_num = u32 (u32 (n.protocol.seq_num + 1) + 1) };
              host = h;
            };
            far = record f {
              role = device;
              dev_enable = true;
              protocol = record { seq_num = u32 (f.protocol.seq_num + 1) };
              device = record (f.device) {
                configured = true;
                ep2_out = EpFifo.empty;
                ep1_in = EpFifo.empty;
                out_ep_event = false;
                bulk_irq = false;
              };
            };
          },
        ))

    abbrev answer : PktExt
    answer = record (make_usb3_ext bulk_in f.device.assigned_addr 1 device_to_host bulk) {
      seq_num = f.protocol.seq_num;
    }

    in_step :
        run_trb near_env (loopback_in addr len) (lowered n f, after_turn n f (b ∷ bs))
        ≡ ended (record (lowered n f) { resp_data = b ∷ bs; resp_valid = true })
    unfolding run_trb EpFifo.read Protocol.host_b_transport upstream_b_transport
        Protocol.link_b_transport Protocol.device_b_transport usb3_otg.Pair.to_device
        usb3_otg.Pair.to_host usb3_otg.Host.from_protocol_b_transport Device.from_proto_b_transport
    in_step = ap ended (respond fresh answer b bs (lowered n f) tt)

  -- On an enabled and configured device, with two calls or more from side to side inside one another:
  -- the bytes that the host of one block sends in a bulk OUT stand in its receive buffer, whole and
  -- unchanged, after a turn of the other block's thread and a bulk IN of any length. The response is
  -- used up, both endpoint buffers are empty, the host has numbered two packets, and the device
  -- one.
  pub out_turn_in-returns :
      (n f : Block) (addr b : ℕ) (bs : List ℕ) (len : ℕ)
      → let (h, p) = out_turn_in addr (b ∷ bs) len (configured n f) in
        (h.rx_buf ≡ b ∷ bs)
        × (h.resp_valid ≡ false)
        × (p.far.device.ep1_in ≡ EpFifo.empty)
        × (p.far.device.ep2_out ≡ EpFifo.empty)
        × (p.near.protocol.seq_num ≡ u32 (u32 (n.protocol.seq_num + 1) + 1))
        × (p.far.protocol.seq_num ≡ u32 (f.protocol.seq_num + 1))
  unfolding out_turn_in announce collect
  out_turn_in-returns n f addr b bs len =
      let t = far_turn (run_trb near_env (loopback_out addr (b ∷ bs)) (n.host, configured n f)) in
      let turned : t ≡ after_turn n f (b ∷ bs) =
        ap far_turn (out_step n f addr b bs len) ∙ turn_step n f addr b bs len in
      let whole =
        ap (λ (p : Pair). run_trb near_env (loopback_in addr len) (p.near.host, p)) turned
        ∙ in_step n f addr b bs len in
      (
        ap (λ (x : Host × Pair). x.0.rx_buf) whole,
        ap (λ (x : Host × Pair). x.0.resp_valid) whole,
        ap (λ (x : Host × Pair). x.1.far.device.ep1_in) whole,
        ap (λ (x : Host × Pair). x.1.far.device.ep2_out) whole,
        ap (λ (x : Host × Pair). x.1.near.protocol.seq_num) whole,
        ap (λ (x : Host × Pair). x.1.far.protocol.seq_num) whole,
      )
