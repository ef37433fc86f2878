-- ===== src/Host/Refined.antt =====
-- src/usb3_host_controller.cpp, `process_transfer_ring`: the loop on fuel against the steps of the
-- thread.
use usb3_otg.Base.{
  ℕ, zero, suc, ◌≡◌, refl, sym, subst, ap, ◌∙◌, Bool, true, false, List, [], ◌∷◌, if_true, if_false,
  arith,
}
use usb3_otg.Types.Tlm.{Trans}
use usb3_otg.Types.{Dir, host_to_device, device_to_host}
use usb3_otg.Host.{Host, Env}
use usb3_otg.Host.Ring.{Trb, dequeue}
use usb3_otg.Host.Process.{
  Stop, disabled, waits, no_fuel, process_transfer_ring, run_trb, collect, announce, trb_trans,
}
use usb3_otg.Host.Transfers.{turn_disabled, turn_empty, turn_runs}
use usb3_otg.Host.Thread.{
  Phase, for_enable, at_head, for_pulse, for_trb, raise, begin_trb, take_next, turn, end_pulse, Net,
  net, turns, pulse_over, Reach, here, next,
}

-- Where the thread stands when the loop stops.
abbrev pub phase_of : Stop → Phase
phase_of disabled = for_enable
phase_of waits = for_trb
phase_of no_fuel = at_head

-- No other process runs in the wait of a pulse, and no request comes in while one is sent.
pub record IsStill {E : Type 0} (env : Env E) : Type 0 where
  pub sends :
      (t : Trans) (w : Host × E)
      → w.0.trb_event ≡ false
      → (env.to_protocol t w).1.0.trb_event ≡ false
  pub pauses : (n : ℕ) (w : Host × E) → env.pause n w ≡ w

module _ {E : Type 0} (env : Env E) (still : IsStill env) where
  prepend : {r : Bool} {s t u : Net E} → Reach env r s t → Reach env r t u → Reach env r s u
  prepend run here = run
  prepend run (next more st) = next (prepend run more) st

  collect_still : (dir : Dir) (w : Host × E) → (collect env dir w).0.trb_event ≡ w.0.trb_event
  unfolding collect
  collect_still host_to_device w = refl
  collect_still device_to_host w = ground arith

  finish_run :
      (b : Bool) (w : Host × E)
      → w.0.trb_event ≡ false
      → Reach env false (net (raise env b w)) (net (at_head, announce env b w))
  unfolding raise announce end_pulse
  finish_run false w e = here
  finish_run true (h, e) q =
      subst
        (λ v.
          Reach env false (net (for_pulse, (record h { transfer_done = true }, e)))
            (net (at_head, (end_pulse v.0, v.1))))
        (sym (still.pauses 1 (record h { transfer_done = true }, e)))
        (next here (pulse_over _ refl q))

  announce_still : (b : Bool) (w : Host × E) → (announce env b w).0.trb_event ≡ w.0.trb_event
  unfolding announce
  announce_still false w = refl
  announce_still true (h, e) = ap (λ (v : Host × E). v.0.trb_event) (still.pauses 1 _)

  run_trb_still :
      (trb : Trb) (w : Host × E) → w.0.trb_event ≡ false → (run_trb env trb w).0.trb_event ≡ false
  unfolding run_trb
  run_trb_still trb w q =
      announce_still trb.ioc _ ∙ collect_still trb.direction _ ∙ still.sends (trb_trans env trb) w q

  trb_run :
      (trb : Trb) (w : Host × E)
      → w.0.trb_event ≡ false
      → Reach env false (net (begin_trb env trb w)) (net (at_head, run_trb env trb w))
  unfolding begin_trb run_trb
  trb_run trb w q =
      finish_run trb.ioc _ (collect_still trb.direction _ ∙ still.sends (trb_trans env trb) w q)

  module _ (h : Host) (e : E) where
    head_disabled : env.enable e ≡ false → turn env (h, e) ≡ (for_enable, (h, e))
    unfolding turn
    head_disabled d = if_false _ _ d

    head_empty : env.enable e ≡ true → h.transfer_ring ≡ [] → turn env (h, e) ≡ (for_trb, (h, e))
    unfolding turn take_next dequeue
    head_empty d r = if_true _ _ d ∙ ap (λ q. take_next env (dequeue q) (h, e)) r

    head_runs :
        (trb : Trb) (queue : List Trb)
        → env.enable e ≡ true
        → h.transfer_ring ≡ trb ∷ queue
        → turn env (h, e) ≡ begin_trb env trb (record h { transfer_ring = queue }, e)
    unfolding turn take_next dequeue
    head_runs trb queue d r = if_true _ _ d ∙ ap (λ q. take_next env (dequeue q) (h, e)) r

  -- A step of the thread from the head of the loop.
  head_step :
      (w : Host × E) (x : Phase × (Host × E))
      → turn env w ≡ x
      → Reach env false (net (at_head, w)) (net x)
  head_step w x t =
      subst (λ y. Reach env false (net (at_head, w)) (net y)) t (next here (turns _ refl))

  -- Where no other process runs in the wait of a pulse and no request comes in while one is sent,
  -- with any fuel: what the ring's loop does from a host with no notification pending is a run of
  -- the thread's steps without requests, from the head of the loop to where the loop stops: the
  -- wait for the enable port, the wait for a request, or the head again when the fuel is used up.
  pub process_transfer_ring-Reach :
      (fuel : ℕ) (w : Host × E)
      → w.0.trb_event ≡ false
      → let (stop, v) = process_transfer_ring env fuel w in
        Reach env false (net (at_head, w)) (net (phase_of stop, v))
  unfolding process_transfer_ring
  process_transfer_ring-Reach zero w q = here
  process_transfer_ring-Reach (suc fuel) (h, e) q =
      go (env.enable e) refl h.transfer_ring refl (process_transfer_ring-Reach fuel)
    where
      Runs : ℕ → Host × E → Type 0
      Runs n w =
          Reach env false (net (at_head, w))
            (net (phase_of (process_transfer_ring env n w).0, (process_transfer_ring env n w).1))

      go :
          (b : Bool)
          → env.enable e ≡ b
          → (ring : List Trb) → h.transfer_ring ≡ ring
          → ((w : Host × E) → w.0.trb_event ≡ false → Runs fuel w)
          → Runs (suc fuel) (h, e)
      go false d ring r ih =
          rw (turn_disabled env fuel h e d) (head_step (h, e) _ (head_disabled h e d))
      go true d [] r ih = rw (turn_empty env fuel h e d r) (head_step (h, e) _ (head_empty h e d r))
      go true d (trb ∷ queue) r ih =
          let w : Host × E = (record h { transfer_ring = queue }, e) in
          rw (turn_runs env fuel h e trb queue d r) (
            prepend (head_step (h, e) _ (head_runs h e trb queue d r))
              (prepend (trb_run trb w q) (ih (run_trb env trb w) (run_trb_still trb w q))))
