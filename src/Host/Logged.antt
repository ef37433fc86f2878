-- ===== src/Host/Logged.antt =====
-- src/usb3_host_controller.cpp: the surroundings of the host with a record of what the thread hands to
-- `to_protocol`.
use usb3_otg.Base.{
  ◌≡◌, refl, ap, Bool, true, false, none, some, List, [], ◌∷◌, ◌++◌, if◌then◌else◌, Option,
  Bool-cases, inl, inr, arith, ◌∙◌,
}
use usb3_otg.Types.{PktType, bulk_out, bulk_in, Dir, host_to_device, device_to_host}
use usb3_otg.Types.Tlm.{Trans}
use usb3_otg.Host.{Env, Host}
use usb3_otg.Host.Ring.{Trb, dequeue}
use usb3_otg.Host.Process.{trb_trans, collect}
use usb3_otg.Host.Thread.{Phase, turn, take_next, begin_trb, raise}

-- The rest of the system, and the transactions in the order in which they were handed over.
abbrev pub logged : {E : Type 0} → Env E → Env (E × List Trans)
logged env = record {
  to_protocol =
      λ t w. let (t', w') = env.to_protocol t (w.0, w.1.0) in (t', (w'.0, (w'.1, w.1.1 ++ t ∷ [])));
  enable = λ v. env.enable v.0;
  pause = λ n w. let w' = env.pause n (w.0, w.1.0) in (w'.0, (w'.1, w.1.1));
  fresh = env.fresh;
}

abbrev is_bulk_type : PktType → Bool
is_bulk_type bulk_out = true
is_bulk_type bulk_in = true
is_bulk_type _ = false

abbrev pub is_bulk : Trans → Bool
is_bulk t = elim t.ext [ none ↦ false | some ext ↦ is_bulk_type ext.pkt_type ]

abbrev pub bulk_of : List Trans → List Trans
bulk_of [] = []
bulk_of (t ∷ ts) = let rest = bulk_of ts in if is_bulk t then t ∷ rest else rest

pub bulk_of-snoc_other :
    (ts : List Trans) (t : Trans) → is_bulk t ≡ false → bulk_of (ts ++ t ∷ []) ≡ bulk_of ts
bulk_of-snoc_other [] t h = rw h refl
bulk_of-snoc_other (x ∷ ts) t h =
    ap (λ rest. if is_bulk x then x ∷ rest else rest) (bulk_of-snoc_other ts t h)

module _ {E : Type 0} (env : Env E) where
  collect_log : (dir : Dir) (w : Host × (E × List Trans)) → (collect (logged env) dir w).1.1 ≡ w.1.1
  unfolding collect
  collect_log host_to_device w = refl
  collect_log device_to_host w = ground arith

  raise_log : (b : Bool) (w : Host × (E × List Trans)) → (raise (logged env) b w).1.1.1 ≡ w.1.1
  unfolding raise
  raise_log true w = refl
  raise_log false w = refl

  pub begin_trb_log :
      (trb : Trb) (h : Host) (e : E)
      → (begin_trb (logged env) trb (h, (e, []))).1.1.1 ≡ trb_trans env trb ∷ []
  unfolding begin_trb
  begin_trb_log trb h e = raise_log trb.ioc _ ∙ collect_log trb.direction _

  -- To keep the log changes nothing else.
  abbrev forget : Phase × (Host × (E × List Trans)) → Phase × (Host × E)
  forget v = (v.0, (v.1.0, v.1.1.0))

  finish_logged :
      (b : Bool) (dir : Dir) (w : Host × (E × List Trans))
      → forget (raise (logged env) b (collect (logged env) dir w))
        ≡ raise env b (collect env dir (w.0, w.1.0))
  unfolding raise collect
  finish_logged false host_to_device w = refl
  finish_logged true host_to_device w = refl
  finish_logged false device_to_host w = ground arith
  finish_logged true device_to_host w = ground arith

  take_next-logged :
      (r : Option (Trb × List Trb)) (h : Host) (e : E) (log : List Trans)
      → forget (take_next (logged env) r (h, (e, log))) ≡ take_next env r (h, e)
  unfolding take_next begin_trb
  take_next-logged none h e log = refl
  take_next-logged (some (trb, queue)) h e log = finish_logged trb.ioc trb.direction _

  pub turn-logged :
      (h : Host) (e : E) (log : List Trans)
      → forget (turn (logged env) (h, (e, log))) ≡ turn env (h, e)
  unfolding turn
  turn-logged h e log = elim (Bool-cases (env.enable e)) [
    | inl q ↦ rw q (take_next-logged (dequeue h.transfer_ring) h e log)
    | inr q ↦ rw q refl
  ]
