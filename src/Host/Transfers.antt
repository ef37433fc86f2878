-- ===== src/Host/Transfers.antt =====
-- src/usb3_host_controller.cpp, `process_transfer_ring`: that the loop ends, and what it sends.
use usb3_otg.Base.{
  ℕ, zero, suc, ◌<◌, ◌≡◌, ◌≢◌, refl, sym, ap, ◌∙◌, Bool, true, false, List, [], ◌∷◌, ◌++◌, map,
  append-nil, append_assoc, arith, length,
}
use usb3_otg.Types.{Dir, host_to_device, device_to_host}
use usb3_otg.Types.Tlm.{Trans, incomplete_response}
use usb3_otg.Host.{Host, Env}
use usb3_otg.Host.Ring.{Trb, dequeue}
use usb3_otg.Host.Process.{
  Stop, disabled, waits, no_fuel, collect, announce, run_trb, trb_trans, process_transfer_ring,
}

-- No other process queues a request while the host runs one.
pub record KeepsRing {E : Type 0} (env : Env E) : Type 0 where
  pub sends :
      (t : Trans) (w : Host × E) → (env.to_protocol t w).1.0.transfer_ring ≡ w.0.transfer_ring
  pub pauses : (n : ℕ) (w : Host × E) → (env.pause n w).0.transfer_ring ≡ w.0.transfer_ring

-- The loop has ended for a reason that holds where it ends.
pub record HasStopped {E : Type 0} (env : Env E) (r : Stop × (Host × E)) : Type 0 where
  pub ended : r.0 ≢ no_fuel
  pub off : r.0 ≡ disabled → env.enable r.1.1 ≡ false
  pub served : r.0 ≡ waits → (env.enable r.1.1 ≡ true) × (r.1.0.transfer_ring ≡ [])

module _ {E : Type 0} (env : Env E) (fuel : ℕ) (h : Host) (e : E) where
  pub turn_disabled :
      env.enable e ≡ false → process_transfer_ring env (suc fuel) (h, e) ≡ (disabled, (h, e))
  unfolding process_transfer_ring
  turn_disabled d = rw (d, process_transfer_ring)

  pub turn_empty :
      env.enable e ≡ true
      → h.transfer_ring ≡ []
      → process_transfer_ring env (suc fuel) (h, e) ≡ (waits, (h, e))
  unfolding process_transfer_ring dequeue
  turn_empty d r = rw (d, process_transfer_ring) (rw (ap dequeue r, process_transfer_ring) refl)

  pub turn_runs :
      (trb : Trb) (queue : List Trb)
      → env.enable e ≡ true
      → h.transfer_ring ≡ trb ∷ queue
      → process_transfer_ring env (suc fuel) (h, e)
        ≡ process_transfer_ring env fuel (run_trb env trb (record h { transfer_ring = queue }, e))
  unfolding process_transfer_ring dequeue
  turn_runs trb queue d r =
      rw (d, process_transfer_ring) (rw (ap dequeue r, process_transfer_ring) refl)

module _ {E : Type 0} (env : Env E) (k : KeepsRing env) where
  collect_keeps :
      (dir : Dir) (w : Host × E) → (collect env dir w).0.transfer_ring ≡ w.0.transfer_ring
  unfolding collect
  collect_keeps host_to_device w = refl
  collect_keeps device_to_host w = ground arith

  announce_keeps :
      (ioc : Bool) (w : Host × E) → (announce env ioc w).0.transfer_ring ≡ w.0.transfer_ring
  unfolding announce
  announce_keeps false w = refl
  announce_keeps true w = k.pauses 1 _

  pub run_trb_keeps :
      (trb : Trb) (w : Host × E) → (run_trb env trb w).0.transfer_ring ≡ w.0.transfer_ring
  unfolding run_trb
  run_trb_keeps trb w =
      announce_keeps trb.ioc _ ∙ collect_keeps trb.direction _ ∙ k.sends (trb_trans env trb) w

  -- Where no other process queues a request while the host runs one, and with more fuel than
  -- there are requests: the loop stops. It says that it was disabled only with the enable port low,
  -- and that it waits for a request only with the port high and nothing left in the ring.
  pub process_transfer_ring_stops :
      (fuel : ℕ) (w : Host × E)
      → length w.0.transfer_ring < fuel
      → HasStopped env (process_transfer_ring env fuel w)
  process_transfer_ring_stops zero w h = elim h [ ]
  process_transfer_ring_stops (suc fuel) (host, e) h =
      go (env.enable e) refl host.transfer_ring refl (process_transfer_ring_stops fuel)
    where
      go :
          (b : Bool)
          → env.enable e ≡ b
          → (ring : List Trb) → host.transfer_ring ≡ ring
          → ((w : Host × E)
              → length w.0.transfer_ring < fuel
              → HasStopped env (process_transfer_ring env fuel w))
          → HasStopped env (process_transfer_ring env (suc fuel) (host, e))
      go false d ring r ih =
          rw (turn_disabled env fuel host e d)
            (record { ended = λ q. cc; off = λ q. d; served = λ q. cc })
      go true d [] r ih =
          rw (turn_empty env fuel host e d r)
            (record { ended = λ q. cc; off = λ q. cc; served = λ q. (d, r) })
      go true d (trb ∷ queue) r ih = rw (turn_runs env fuel host e trb queue d r) (
          ih _ (
            omega (
              arith,
              ap length r,
              ap length (run_trb_keeps trb (record host { transfer_ring = queue }, e)),
            )))

-- A protocol layer that keeps what it is given and answers nothing, and no other process.
abbrev pub recorder : Env (List Trans)
recorder = record {
  to_protocol = λ t w. (t, (w.0, w.1 ++ t ∷ []));
  enable = λ _. true;
  pause = λ n w. w;
  fresh = incomplete_response;
}

recorder-KeepsRing : KeepsRing recorder
recorder-KeepsRing = record { sends = λ t w. refl; pauses = λ n w. refl }

collect_log : (dir : Dir) (w : Host × List Trans) → (collect recorder dir w).1 ≡ w.1
unfolding collect
collect_log host_to_device w = refl
collect_log device_to_host w = ground arith

announce_log : (ioc : Bool) (w : Host × List Trans) → (announce recorder ioc w).1 ≡ w.1
unfolding announce
announce_log false w = refl
announce_log true w = refl

run_trb_log :
    (trb : Trb) (w : Host × List Trans)
    → (run_trb recorder trb w).1 ≡ w.1 ++ trb_trans recorder trb ∷ []
unfolding run_trb
run_trb_log trb w = announce_log trb.ioc _ ∙ collect_log trb.direction _

-- What the loop has done when it stops.
abbrev pub Drains : List Trb → List Trans → Stop × (Host × List Trans) → Type 0
Drains ring log (stop, (h, log')) =
    (stop ≡ waits) × (h.transfer_ring ≡ []) × (log' ≡ log ++ map (trb_trans recorder) ring)

-- With the host enabled throughout, a protocol layer that answers nothing, no other process at
-- work and more fuel than requests: the queued requests are sent one after the other in the order
-- in which they were queued, each as one transaction of its direction, and then the host waits
-- for more with an empty ring.
pub process_transfer_ring-Drains :
    (ring : List Trb) (fuel : ℕ) (h : Host) (log : List Trans)
    → h.transfer_ring ≡ ring
    → length ring < fuel
    → Drains ring log (process_transfer_ring recorder fuel (h, log))
process_transfer_ring-Drains ring zero h log r f = elim f [ ]
process_transfer_ring-Drains [] (suc fuel) h log r f =
    rw (turn_empty recorder fuel h log refl r) (refl, r, sym (append-nil log))
process_transfer_ring-Drains (trb ∷ queue) (suc fuel) h log r f =
    let w = run_trb recorder trb (record h { transfer_ring = queue }, log) in
    rw (turn_runs recorder fuel h log trb queue refl r) (
      extend (process_transfer_ring recorder fuel w) (
        process_transfer_ring-Drains queue fuel w.0 w.1
          (run_trb_keeps recorder recorder-KeepsRing trb _) (omega arith)))
  where
    extend :
        (x : Stop × (Host × List Trans))
        → Drains queue (run_trb recorder trb (record h { transfer_ring = queue }, log)).1 x
        → Drains (trb ∷ queue) log x
    extend (stop, (h', log')) (s, e, l) = (
      s,
      e,
      l
          ∙ ap (λ xs. xs ++ map (trb_trans recorder) queue) (run_trb_log trb _)
          ∙ append_assoc log _ _,
    )
