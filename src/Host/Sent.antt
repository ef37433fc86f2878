-- ===== src/Host/Sent.antt =====
-- src/usb3_host_controller.cpp, the requests of the firmware in a run of `host_main_process`: what is
-- queued and what is handed to `to_protocol`.
use usb3_otg.Base.{
  ℕ, ◌≡◌, refl, sym, ap, ◌∙◌, Bool, true, false, Option, none, some, List, [], ◌∷◌, ◌++◌,
  append-nil, append_assoc, arith, u32, Bool-cases, inl, inr, map, ap₂, map-append,
}
use usb3_otg.Types.{Dir, host_to_device, device_to_host, bulk}
use usb3_otg.Types.Tlm.{Trans}
use usb3_otg.Host.{Host, Env, enqueue_bulk_trb, from_protocol_b_transport, take_response}
use usb3_otg.Host.Ring.{Trb, default_trb, enqueue, dequeue}
use usb3_otg.Host.Process.{collect, trb_trans}
use usb3_otg.Host.Transfers.{KeepsRing}
use usb3_otg.Host.Frame.{enumerate_device-same}
use usb3_otg.Host.Thread.{
  raise, begin_trb, turn, end_pulse, Net, Step, outside, rise, request, respond, deliver, drop,
  enumerated, turns, pulse_over, Reach, here, next, take_next,
}
use usb3_otg.Host.Logged.{logged, bulk_of, bulk_of-snoc_other, begin_trb_log}
use usb3_otg.Host.Enumerate.{enumerate_device}

-- The request that `enqueue_bulk_trb` makes.
abbrev pub bulk_trb : ℕ → ℕ → Dir → ℕ → List ℕ → Trb
bulk_trb dev_addr ep direction len bytes = record default_trb {
  dev_addr = dev_addr;
  endpoint = ep;
  direction = direction;
  ep_type = bulk;
  payload = bytes;
  trb_length = u32 len;
  ioc = true;
}

-- What a run queues, and the transactions that the thread hands to `to_protocol` in it: all of those
-- of the ring's loop, and those of an enumeration that are bulk transfers. They are what `logged`
-- keeps when the step is run with it.
abbrev step_queued : {E : Type 0} {env : Env E} {r : Bool} {s u : Net E} → Step env r s u → List Trb
step_queued (request s dev_addr ep direction len bytes h a p e) =
    bulk_trb dev_addr ep direction len bytes ∷ []
step_queued _ = []

abbrev step_sent : {E : Type 0} {env : Env E} {r : Bool} {s u : Net E} → Step env r s u → List Trans
step_sent {env = env} (turns s p) = (turn (logged env) (s.host, (s.rest, []))).1.1.1
step_sent {env = env} (enumerated s p t) =
    bulk_of (enumerate_device (logged env) (s.host, (s.rest, []))).1.1
step_sent _ = []

unfoldable pub queued :
    {E : Type 0} {env : Env E} {r : Bool} {s u : Net E} → Reach env r s u → List Trb
queued here = []
queued (next r st) = queued r ++ step_queued st

unfoldable pub sent :
    {E : Type 0} {env : Env E} {r : Bool} {s u : Net E} → Reach env r s u → List Trans
sent here = []
sent (next r st) = sent r ++ step_sent st

pub enqueue_bulk_trb_lem :
    (dev_addr ep : ℕ) (direction : Dir) (len : ℕ) (bytes : List ℕ) (h h' : Host)
    → enqueue_bulk_trb dev_addr ep direction len bytes h ≡ some h'
    → (h'.transfer_ring ≡ h.transfer_ring ++ bulk_trb dev_addr ep direction len bytes ∷ [])
      × (h'.trb_event ≡ true)
unfolding enqueue_bulk_trb enqueue
enqueue_bulk_trb_lem dev_addr ep direction len bytes h h' e = ground arith

pub respond_same :
    {E : Type 0} (t : Trans) (h : Host) (e : E)
    → ((from_protocol_b_transport t (h, e)).1.0.transfer_ring ≡ h.transfer_ring)
      × ((from_protocol_b_transport t (h, e)).1.0.trb_event ≡ h.trb_event)
unfolding from_protocol_b_transport
respond_same t h e = go t.data_ptr
  where
    go :
        (p : Option (List ℕ))
        → ((take_response p t h).transfer_ring ≡ h.transfer_ring)
          × ((take_response p t h).trb_event ≡ h.trb_event)
    go none = (refl, refl)
    go (some bytes) = ground arith

module _ {E : Type 0} (env : Env E) where
  -- Only the control packets of an enumeration reach the socket.
  enumerate_device_log :
      (w : Host × E) → bulk_of (enumerate_device (logged env) (w.0, (w.1, []))).1.1 ≡ []
  enumerate_device_log w =
      enumerate_device-same (λ ring v. bulk_of v.1) (logged env)
        (record { sends = λ t v c. bulk_of-snoc_other v.1.1 t c; pauses = λ n v. refl })
        (w.0, (w.1, []))

module _ {E : Type 0} (env : Env E) (k : KeepsRing env) where
  enumerate_device-ring :
      (w : Host × E) → (enumerate_device env w).0.transfer_ring ≡ w.0.transfer_ring
  enumerate_device-ring w =
      enumerate_device-same (λ ring e. ring) env
        (record { sends = λ t v c. k.sends t v; pauses = k.pauses }) w

  collect_same :
      (dir : Dir) (w : Host × E) → (collect env dir w).0.transfer_ring ≡ w.0.transfer_ring
  unfolding collect
  collect_same host_to_device w = refl
  collect_same device_to_host w = ground arith

  raise_same : (b : Bool) (w : Host × E) → (raise env b w).1.0.transfer_ring ≡ w.0.transfer_ring
  unfolding raise
  raise_same true w = refl
  raise_same false w = refl

  begin_trb_same :
      (trb : Trb) (w : Host × E) → (begin_trb env trb w).1.0.transfer_ring ≡ w.0.transfer_ring
  unfolding begin_trb
  begin_trb_same trb w =
      raise_same trb.ioc _ ∙ collect_same trb.direction _ ∙ k.sends (trb_trans env trb) w

  take_next-sent :
      (ring : List Trb) (h : Host) (e : E)
      → h.transfer_ring ≡ ring
      → map (trb_trans env) ring
        ≡ (take_next (logged env) (dequeue ring) (h, (e, []))).1.1.1
          ++ map (trb_trans env) (take_next env (dequeue ring) (h, e)).1.0.transfer_ring
  unfolding take_next dequeue
  take_next-sent [] h e r = ap (map (trb_trans env)) (sym r)
  take_next-sent (trb ∷ queue) h e r =
      let h' : Host = record h { transfer_ring = queue } in
      ap₂ ◌++◌ (sym (begin_trb_log env trb h' e))
        (ap (map (trb_trans env)) (sym (begin_trb_same trb (h', e))))

  turn-sent :
      (h : Host) (e : E)
      → map (trb_trans env) h.transfer_ring
        ≡ (turn (logged env) (h, (e, []))).1.1.1
          ++ map (trb_trans env) (turn env (h, e)).1.0.transfer_ring
  unfolding turn
  turn-sent h e = elim (Bool-cases (env.enable e)) [
    | inl q ↦ rw q (take_next-sent h.transfer_ring h e refl)
    | inr q ↦ rw q refl
  ]

  -- The requests of a list, as the transactions that they are on the socket.
  abbrev trans_of : List Trb → List Trans
  trans_of = map (trb_trans env)

  -- A step that leaves the ring as it is, queues nothing and sends nothing.
  idle_balance :
      (ring ring' : List Trb) (log : List Trans)
      → ring' ≡ ring
      → log ≡ []
      → trans_of (ring ++ []) ≡ log ++ trans_of ring'
  idle_balance ring ring' log p q =
      ap trans_of (append-nil ring ∙ sym p) ∙ sym (ap (λ l. l ++ trans_of ring') q)

  Step-balance :
      {r : Bool} {s u : Net E} (st : Step env r s u)
      → trans_of (s.host.transfer_ring ++ step_queued st)
        ≡ step_sent st ++ trans_of u.host.transfer_ring
  unfolding end_pulse
  Step-balance (outside s e a p) = idle_balance _ _ [] refl refl
  Step-balance (rise s e p a b) = idle_balance _ _ [] refl refl
  Step-balance (request s dev_addr ep direction len bytes h a p e) =
      ap trans_of (sym (enqueue_bulk_trb_lem dev_addr ep direction len bytes s.host h e).0)
  Step-balance (respond s t p) = idle_balance _ _ [] (respond_same t s.host s.rest).0 refl
  Step-balance (deliver s p t) = idle_balance _ _ [] refl refl
  Step-balance (drop s a p t) = idle_balance _ _ [] refl refl
  Step-balance (enumerated s p t) =
      idle_balance _ _ _ (enumerate_device-ring (s.host, s.rest))
        (enumerate_device_log env (s.host, s.rest))
  Step-balance (turns s p) = ap trans_of (append-nil s.host.transfer_ring) ∙ turn-sent s.host s.rest
  Step-balance (pulse_over s p t) = idle_balance _ _ [] refl refl

  pub Reach-balance :
      {r : Bool} {s u : Net E} (run : Reach env r s u)
      → trans_of (s.host.transfer_ring ++ queued run) ≡ sent run ++ trans_of u.host.transfer_ring
  unfolding queued sent
  Reach-balance here = ap trans_of (append-nil _)
  Reach-balance {s = s} {u = u} (next {t = t} run st) =
      ap trans_of (sym (append_assoc s.host.transfer_ring (queued run) (step_queued st)))
      ∙ map-append (trb_trans env) (s.host.transfer_ring ++ queued run) (step_queued st)
      ∙ ap (λ xs. xs ++ trans_of (step_queued st)) (Reach-balance run)
      ∙ append_assoc (sent run) _ _
      ∙ ap (λ xs. sent run ++ xs)
          (sym (map-append (trb_trans env) t.host.transfer_ring (step_queued st)) ∙ Step-balance st)
      ∙ sym (append_assoc (sent run) (step_sent st) (trans_of u.host.transfer_ring))
