-- ===== src/Host/Pulses.antt =====
-- src/usb3_host_controller.cpp, what other processes see of `transfer_done` while
-- `process_transfer_ring` works through the ring. A process runs, and sees the port, only while the
-- thread waits; two writes of the port between two waits show the last value alone.
use usb3_otg.Base.{
  ℕ, zero, suc, ◌<◌, ◌≡◌, refl, sym, ap, ◌∙◌, Bool, true, false, List, [], ◌∷◌, ◌++◌, append-nil,
  append_assoc, arith, length, if◌then◌else◌,
}
use usb3_otg.Types.{Dir, host_to_device, device_to_host}
use usb3_otg.Types.Tlm.{incomplete_response}
use usb3_otg.Host.{Host, Env}
use usb3_otg.Host.Ring.{Trb}
use usb3_otg.Host.Process.{waits, collect, announce, run_trb, process_transfer_ring}
use usb3_otg.Host.Transfers.{KeepsRing, run_trb_keeps, turn_empty, turn_runs}

-- A protocol layer that answers nothing, and the values of `transfer_done` in the waits.
abbrev pub sampler : Env (List Bool)
sampler = record {
  to_protocol = λ t w. (t, w);
  enable = λ _. true;
  pause = λ n w. (w.0, w.1 ++ w.0.transfer_done ∷ []);
  fresh = incomplete_response;
}

sampler-KeepsRing : KeepsRing sampler
sampler-KeepsRing = record { sends = λ t w. refl; pauses = λ n w. refl }

-- A raised sample for each request that asks for an announcement, and no other.
abbrev pub samples : List Trb → List Bool
samples [] = []
samples (trb ∷ ring) = if trb.ioc then true ∷ samples ring else samples ring

collect_samples : (dir : Dir) (w : Host × List Bool) → (collect sampler dir w).1 ≡ w.1
unfolding collect
collect_samples host_to_device w = refl
collect_samples device_to_host w = ground arith

announce_samples :
    (b : Bool) (w : Host × List Bool) (rest : List Bool)
    → (announce sampler b w).1 ++ rest ≡ w.1 ++ (if b then true ∷ rest else rest)
unfolding announce
announce_samples false w rest = refl
announce_samples true w rest = append_assoc w.1 (true ∷ []) rest

run_trb-samples :
    (trb : Trb) (w : Host × List Bool) (ring : List Trb)
    → (run_trb sampler trb w).1 ++ samples ring ≡ w.1 ++ samples (trb ∷ ring)
unfolding run_trb
run_trb-samples trb w ring =
    announce_samples trb.ioc (collect sampler trb.direction w) (samples ring)
    ∙ ap (λ log. log ++ samples (trb ∷ ring)) (collect_samples trb.direction w)

-- With the host enabled throughout, a protocol layer that answers nothing and more fuel than
-- requests: the values of `transfer_done` that other processes see, in the waits of the thread until
-- it has emptied the ring, are one raised value for each request that asks for an announcement, and
-- no lowered value before, between or behind them.
pub process_transfer_ring-samples :
    (ring : List Trb) (fuel : ℕ) (h : Host) (log : List Bool)
    → h.transfer_ring ≡ ring
    → length ring < fuel
    → ((process_transfer_ring sampler fuel (h, log)).0 ≡ waits)
      × ((process_transfer_ring sampler fuel (h, log)).1.1 ≡ log ++ samples ring)
process_transfer_ring-samples ring zero h log r f = elim f [ ]
process_transfer_ring-samples [] (suc fuel) h log r f =
    rw (turn_empty sampler fuel h log refl r) (refl, sym (append-nil log))
process_transfer_ring-samples (trb ∷ queue) (suc fuel) h log r f =
    let w : Host × List Bool = run_trb sampler trb (record h { transfer_ring = queue }, log) in
    let (s, l) =
      process_transfer_ring-samples queue fuel w.0 w.1
        (run_trb_keeps sampler sampler-KeepsRing trb _) (omega arith) in
    rw (turn_runs sampler fuel h log trb queue refl r)
      (s, l ∙ run_trb-samples trb (record h { transfer_ring = queue }, log) queue)
