-- ===== src/Drd/Monitor.antt =====
-- src/usb3_drd_controller.cpp, `role_switch_monitor`: the thread that enables the controller of the
-- role. It waits for a rising edge of `role_changed`, reads the role, disables both controllers, and
-- a microsecond later enables the one that it read. The role manager raises `role_changed` with each
-- change of the role and holds it for ten nanoseconds, so a later change has its edge too; an edge
-- while the thread waits out its microsecond is not seen.
use usb3_otg.Base.{◌≡◌, refl, ◌≢◌, Bool, true, false, arith}
use usb3_otg.Types.{Role, host, device}
use usb3_otg.Drd.{Drd, raise_irq, intr_role_changed}

pub data Phase : Type 0 where
  for_edge : Phase
  settling : Role → Phase

-- `sig_host_enable`, `sig_dev_enable`, the role signal, whether an edge of `role_changed` is on its
-- way to the thread, and where the thread waits.
pub record Switch : Type 0 where
  pub host_enable : Bool
  pub dev_enable : Bool
  pub role : Role
  pub edge : Bool
  pub phase : Phase

abbrev pub boot : Switch
boot = record {
  host_enable = false;
  dev_enable = false;
  role = Role.none;
  edge = false;
  phase = for_edge;
}

-- From the edge to the wait of a microsecond.
unfoldable pub on_edge : Switch → Switch
on_edge s = record s {
  host_enable = false;
  dev_enable = false;
  edge = false;
  phase = settling s.role;
}

abbrev pub enable_role : Role → Switch → Switch
enable_role host s = record s { host_enable = true }
enable_role device s = record s { dev_enable = true }
enable_role Role.none s = s

-- From the end of that wait to the next edge; the interrupt state goes along.
unfoldable pub on_settled : Role → Switch × Drd → Switch × Drd
on_settled r (s, d) = (enable_role r (record s { phase = for_edge }), raise_irq intr_role_changed d)

-- `change` is the role manager's, `see` and `miss` are the kernel's delivery of the edge, and
-- `settle` is the end of the microsecond.
pub data Step (misses : Bool) : Switch × Drd → Switch × Drd → Type 0 where
  change :
      (s : Switch) (d : Drd) (r : Role)
      → r ≢ s.role
      → Step misses (s, d) (record s { role = r; edge = true }, d)
  see :
      (s : Switch) (d : Drd)
      → s.edge ≡ true
      → s.phase ≡ for_edge
      → Step misses (s, d) (on_edge s, d)
  miss :
      (s : Switch) (d : Drd) (r : Role)
      → misses ≡ true
      → s.edge ≡ true
      → s.phase ≡ settling r
      → Step misses (s, d) (record s { edge = false }, d)
  settle :
      (s : Switch) (d : Drd) (r : Role)
      → s.edge ≡ false
      → s.phase ≡ settling r
      → Step misses (s, d) (on_settled r (s, d))

pub data Reach (misses : Bool) (x : Switch × Drd) : Switch × Drd → Type 0 where
  here : Reach misses x x
  next : {y z : Switch × Drd} → Reach misses x y → Step misses y z → Reach misses x z

-- Both controllers are off while the thread settles, and never are both on.
pub record IsExclusive (s : Switch) : Type 0 where
  pub one_at_most : s.host_enable ≡ true → s.dev_enable ≡ false
  pub off_settling :
      (r : Role) → s.phase ≡ settling r → (s.host_enable ≡ false) × (s.dev_enable ≡ false)

on_settled-IsExclusive :
    (s : Switch) (d : Drd) (r : Role)
    → s.phase ≡ settling r
    → IsExclusive s
    → IsExclusive (on_settled r (s, d)).0
unfolding on_settled
on_settled-IsExclusive s d host p h = record {
  one_at_most = λ _. (h.off_settling host p).1;
  off_settling = λ r e. cc;
}
on_settled-IsExclusive s d device p h = record {
  one_at_most = λ e. cc (h.off_settling device p).0;
  off_settling = λ r e. cc;
}
on_settled-IsExclusive s d Role.none p h = record {
  one_at_most = h.one_at_most;
  off_settling = λ r e. cc;
}

Step-IsExclusive : {m : Bool} {x y : Switch × Drd} → Step m x y → IsExclusive x.0 → IsExclusive y.0
unfolding on_edge
Step-IsExclusive (change s d r n) h = record {
  one_at_most = h.one_at_most;
  off_settling = h.off_settling;
}
Step-IsExclusive (see s d e p) h = record {
  one_at_most = λ _. refl;
  off_settling = λ r _. (refl, refl);
}
Step-IsExclusive (miss s d r m e p) h = record {
  one_at_most = h.one_at_most;
  off_settling = h.off_settling;
}
Step-IsExclusive (settle s d r e p) h = on_settled-IsExclusive s d r p h

-- In no run from the start, missed edges included, are the host and the device controller enabled
-- together, and neither is while the thread settles.
pub Reach-IsExclusive :
    {m : Bool} {d : Drd} {y : Switch × Drd} → Reach m (boot, d) y → IsExclusive y.0
Reach-IsExclusive here = record { one_at_most = λ e. cc; off_settling = λ r e. (refl, refl) }
Reach-IsExclusive (next r st) = Step-IsExclusive st (Reach-IsExclusive r)

-- Which controller the role calls for.
abbrev pub Serves : Switch → Type 0
Serves s =
    (s.host_enable ≡ true → s.role ≡ host)
    × (s.dev_enable ≡ true → s.role ≡ device)
    × (s.role ≡ host → s.host_enable ≡ true)
    × (s.role ≡ device → s.dev_enable ≡ true)

-- What the thread knows of the role: that which it read, while no edge is on its way.
record Tracks (s : Switch) : Type 0 where
  reading : (r : Role) → s.phase ≡ settling r → s.edge ≡ false → r ≡ s.role
  off : (r : Role) → s.phase ≡ settling r → (s.host_enable ≡ false) × (s.dev_enable ≡ false)
  serving : s.phase ≡ for_edge → s.edge ≡ false → Serves s

settled-Serves :
    (s : Switch) (d : Drd) (r : Role)
    → r ≡ s.role
    → (s.host_enable ≡ false) × (s.dev_enable ≡ false)
    → Serves (on_settled r (s, d)).0
unfolding on_settled
settled-Serves s d r e off = ground arith

settled_phase : (s : Switch) (d : Drd) (r : Role) → (on_settled r (s, d)).0.phase ≡ for_edge
unfolding on_settled
settled_phase s d host = refl
settled_phase s d device = refl
settled_phase s d Role.none = refl

Step-Tracks : {x y : Switch × Drd} → Step false x y → Tracks x.0 → Tracks y.0
unfolding on_edge
Step-Tracks (change s d r n) h = record { reading = λ q p e. cc; off = h.off; serving = λ p e. cc }
Step-Tracks (see s d e p) h = record {
  reading = λ r q e. cc;
  off = λ r q. (refl, refl);
  serving = λ q e. cc;
}
Step-Tracks (miss s d r m e p) h = cc
Step-Tracks (settle s d r e p) h = record {
  reading = λ q p' e'. cc (settled_phase s d r);
  off = λ q p'. cc (settled_phase s d r);
  serving = λ _ _. settled-Serves s d r (h.reading r p e) (h.off r p);
}

Reach-Tracks : {d : Drd} {y : Switch × Drd} → Reach false (boot, d) y → Tracks y.0
Reach-Tracks here = record {
  reading = λ r p e. cc;
  off = λ r p. cc;
  serving = λ p e. (λ q. cc, λ q. cc, λ q. cc, λ q. cc);
}
Reach-Tracks (next r st) = Step-Tracks st (Reach-Tracks r)

-- In a run from the start in which no role change comes within the microsecond of an earlier one,
-- the thread at rest has enabled the controller of the role, and no other.
pub rest-Serves :
    {d : Drd} {y : Switch × Drd}
    → Reach false (boot, d) y
    → y.0.phase ≡ for_edge
    → y.0.edge ≡ false
    → Serves y.0
rest-Serves r p e = (Reach-Tracks r).serving p e

-- Two role changes, the second within the microsecond of the first.
abbrev pub after_two : Role → Role → Switch × Drd → Switch × Drd
after_two r r' (s, d) = on_settled r (
  record s { host_enable = false; dev_enable = false; role = r'; edge = false; phase = settling r },
  d,
)

-- From a thread that waits for an edge: when a second change of role comes within the
-- microsecond, the thread can come to rest with no edge on its way and the controllers set for
-- the first of the two roles, while the role is the second.
pub change_missed :
    (s : Switch) (d : Drd) (r r' : Role)
    → s.phase ≡ for_edge
    → r ≢ s.role
    → r' ≢ r
    → Reach true (s, d) (after_two r r' (s, d))
      × ((after_two r r' (s, d)).0.phase ≡ for_edge)
      × ((after_two r r' (s, d)).0.edge ≡ false)
      × ((after_two r r' (s, d)).0.role ≡ r')
      × (¬ Serves (after_two r r' (s, d)).0)
unfolding on_edge on_settled
change_missed s d r r' p n n' = (
  next
      (next (next (next (next here (change s d r n)) (see _ d refl p)) (change _ d r' n'))
        (miss _ d r refl refl refl))
      (settle _ d r refl refl),
  ground arith,
  ground arith,
  ground arith,
  ground arith,
)
