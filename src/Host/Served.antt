-- ===== src/Host/Served.antt =====
-- src/usb3_host_controller.cpp, the requests of the firmware in a run of `host_main_process`: each is
-- handed to `to_protocol`.
use usb3_otg.Base.{
  ◌≡◌, refl, sym, ap, ◌∙◌, Bool, true, false, List, [], ◌∷◌, ◌++◌, append-nil, Bool-cases, inl, inr,
  ◌≢◌, map,
}
use usb3_otg.Host.{Host, Env}
use usb3_otg.Host.Ring.{Trb, dequeue}
use usb3_otg.Host.Process.{trb_trans}
use usb3_otg.Host.Transfers.{KeepsRing}
use usb3_otg.Host.Thread.{
  for_trb, raise, begin_trb, turn, end_pulse, Net, net, Step, outside, rise, request, respond,
  deliver, drop, enumerated, turns, pulse_over, Reach, here, next, take_next,
}
use usb3_otg.Host.Sent.{queued, sent, Reach-balance, enqueue_bulk_trb_lem, respond_same}

-- A host that waits for a request has none left, or is about to be woken.
abbrev pub IsServed : {E : Type 0} → Net E → Type 0
IsServed s = s.phase ≡ for_trb → s.host.trb_event ≡ false → s.host.transfer_ring ≡ []

module _ {E : Type 0} (env : Env E) where
  raise-waits : (b : Bool) (w : Host × E) → (raise env b w).0 ≢ for_trb
  unfolding raise
  raise-waits true w = λ q. cc
  raise-waits false w = λ q. cc

  take_next-IsServed :
      (ring : List Trb) (h : Host) (e : E)
      → h.transfer_ring ≡ ring
      → IsServed (net (take_next env (dequeue ring) (h, e)))
  unfolding take_next dequeue begin_trb
  take_next-IsServed [] h e r = λ _ _. r
  take_next-IsServed (trb ∷ queue) h e r = λ q. absurd (raise-waits trb.ioc _ q)

  turn-IsServed : (w : Host × E) → IsServed (net (turn env w))
  unfolding turn
  turn-IsServed (h, e) = elim (Bool-cases (env.enable e)) [
    | inl q ↦ rw q (take_next-IsServed h.transfer_ring h e refl)
    | inr q ↦ rw q (λ p. cc)
  ]

  Step-IsServed : {r : Bool} {s u : Net E} → Step env r s u → IsServed s → IsServed u
  unfolding end_pulse
  Step-IsServed (outside s e a p) h = h
  Step-IsServed (rise s e p a b) h = λ q. cc
  Step-IsServed (request s dev_addr ep direction len bytes g a p e) h =
      let t = (enqueue_bulk_trb_lem dev_addr ep direction len bytes s.host g e).1 in λ _ q. cc
  Step-IsServed (respond s t p) h =
      λ a b. (respond_same t s.host s.rest).0 ∙ h a (sym (respond_same t s.host s.rest).1 ∙ b)
  Step-IsServed (deliver s p t) h = λ q. cc
  Step-IsServed (drop s a p t) h = λ q. absurd (a q)
  Step-IsServed (enumerated s p t) h = λ q. cc
  Step-IsServed (turns s p) h = turn-IsServed (s.host, s.rest)
  Step-IsServed (pulse_over s p t) h = λ q. cc

  Reach-IsServed : {r : Bool} {s u : Net E} → Reach env r s u → IsServed s → IsServed u
  Reach-IsServed here h = h
  Reach-IsServed (next run st) h = Step-IsServed st (Reach-IsServed run h)

  -- Where no other process queues a request while the host sends one or enumerates, whatever
  -- happens to the enable port and whatever notifications the kernel drops: the transactions that
  -- the ring's loop hands to `to_protocol` in a run, with the bulk transfers of its enumerations,
  -- are those of the requests that were in the ring or came into it, one for each in the order in
  -- which they were queued, without those still in the ring; and when the thread waits for a
  -- request with no notification pending, they are those of all requests. The run starts anywhere
  -- but in that wait with requests left over.
  pub Reach-sent :
      KeepsRing env
      → {r : Bool} {s u : Net E} (run : Reach env r s u) → IsServed s
      → (map (trb_trans env) (s.host.transfer_ring ++ queued run)
          ≡ sent run ++ map (trb_trans env) u.host.transfer_ring)
        × (u.phase ≡ for_trb
            → u.host.trb_event ≡ false
            → sent run ≡ map (trb_trans env) (s.host.transfer_ring ++ queued run))
  Reach-sent k {u = u} run h = (
    Reach-balance env k run,
    λ p e.
        sym (append-nil (sent run))
        ∙ ap (λ xs. sent run ++ map (trb_trans env) xs) (sym (Reach-IsServed run h p e))
        ∙ sym (Reach-balance env k run),
  )
