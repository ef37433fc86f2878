-- ===== src/Pair/Race.antt =====
-- src/usb3_host_controller.cpp over src/usb3_device_controller.cpp, two bulk OUT requests in the host's
-- ring against the pulse of the device's `loopback_process`.
use usb3_otg.Base.{ℕ, suc, ◌≡◌, refl, true, false, [], ◌∷◌, List, ap, if◌then◌else◌, take-length}
use usb3_otg.Types.Tlm.{Status}
use usb3_otg.Protocol
use usb3_otg.Host.{Host, Env}
use usb3_otg.Host.Process.{Stop, waits, process_transfer_ring}
use usb3_otg.Device
use usb3_otg.Device.{Device}
use usb3_otg.Device.EpFifo
use usb3_otg.Device.Thread.{Waiting, for_event, for_pulse, begin_turn}
use usb3_otg.System.Loop.{loopback_out}
use usb3_otg.Pair.{
  Block, Pair, near_side, far_side, put_host, put_device, host_env, device_env,
  upstream_b_transport,
}
use usb3_otg.Pair.Enumeration.{idle}
use usb3_otg.Pair.Loopback.{configured}

module _ (fresh : Status) (depth : ℕ) where
  -- The far device's thread and the kernel while the near host waits one nanosecond: a pending
  -- notification starts a turn, up to its wait of ten nanoseconds, or is dropped during that wait.
  unfoldable pub far_runs : Waiting → Host × Pair → Waiting × Pair
  far_runs for_event (h, p) =
      let q = put_host near_side h p in
      let link = upstream_b_transport fresh idle (suc depth) near_side in
      let (w, (d, r)) = begin_turn (device_env fresh idle far_side link) (q.far.device, q) in
      if q.far.device.out_ep_event then (w, put_device far_side d r) else (for_event, q)
  far_runs for_pulse (h, p) =
      let q = put_host near_side h p in
      (for_pulse, put_device far_side (record (q.far.device) { out_ep_event = false }) q)

  -- The near host's surroundings with that thread in them.
  abbrev pub racing : Env (Waiting × Pair)
  racing = record {
    to_protocol = λ t (h, (w, p)).
        let (t', (h', p')) =
          (host_env fresh idle (suc (suc depth)) near_side).to_protocol t (h, p) in
        (t', (h', (w, p')));
    enable = λ (w, p). p.near.host_enable;
    pause = λ n (h, (w, p)). let (w', q) = far_runs w (h, p) in (q.near.host, (w', q));
    fresh = fresh;
  }

-- The host on with two requests in its ring, the device at rest.
abbrev pub requested : ℕ → List ℕ → List ℕ → Block → Block
requested addr first second n = record n {
  host = record (n.host) {
    transfer_ring = loopback_out addr first ∷ loopback_out addr second ∷ [];
  };
  host_enable = true;
}

abbrev pub resting : Block → Block
resting f = record f { device = record (f.device) { ep2_out = EpFifo.empty; out_ep_event = false } }

module _ (fresh : Status) (depth fuel : ℕ) where
  -- When the far device's thread and the kernel run in the near host's wait after each request, and the
  -- wait is over before the thread's pulse is: of two bulk OUT requests in the ring of an enabled
  -- host, of any bytes, both are sent and the host waits for more. The bytes of the first then stand
  -- in endpoint 1 of the configured device, which was at rest, and those of the second in endpoint 2,
  -- with no event pending to move them and the thread in its pulse.
  pub second_out_stuck :
      (n f : Block) (addr : ℕ) (first second : List ℕ)
      → let (stop, (h, (w, p))) =
          process_transfer_ring (racing fresh depth) (suc (suc (suc fuel))) (
            (requested addr first second n).host,
            (for_event, configured (requested addr first second n) (resting f)),
          ) in
        (stop ≡ waits)
        × (h.transfer_ring ≡ [])
        × (p.far.device.ep1_in ≡ record { buffer = first; has_data = true })
        × (p.far.device.ep2_out ≡ record { buffer = second; has_data = true })
        × (p.far.device.out_ep_event ≡ false)
        × (w ≡ for_pulse)
  unfolding far_runs begin_turn usb3_otg.Host.Process.run_trb process_transfer_ring
      usb3_otg.Host.Ring.dequeue EpFifo.read Protocol.host_b_transport upstream_b_transport
      Protocol.link_b_transport Protocol.device_b_transport usb3_otg.Pair.to_device
      Device.from_proto_b_transport
  second_out_stuck n f addr first second = (
    refl,
    refl,
    ap (λ xs. record { buffer = xs; has_data = true }) (take-length first),
    ap (λ xs. record { buffer = xs; has_data = true }) (take-length second),
    refl,
    refl,
  )
