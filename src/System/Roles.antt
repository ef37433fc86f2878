-- ===== src/System/Roles.antt =====
-- src/usb3_role_manager.cpp and src/usb3_drd_controller.cpp, the role manager and the monitor of its
-- two outputs run together: `sig_role` and `sig_role_changed` join them.
use usb3_otg.Base.{
  ◌≡◌, ◌≢◌, ◌⊎◌, inl, refl, Bool, true, false, not, ◌&&◌, ◌||◌, arith, ap, ap₂, ◌∙◌, sym, subst,
  inr, ◌↔◌, if_true, if_false, Bool-cases, if◌then◌else◌,
}
use usb3_otg.Types.{Role, host, device, CcState, cc_disconnected, cc_ufp_attached, cc_dfp_attached}
use usb3_otg.RoleManager.{RoleManager, detect, end_pulse, request_role, for_event, desired_role}
use usb3_otg.RoleManager.Thread.{
  Net, Allows, start, inputs, request, wake, drop, pulse_over, Reach-Shows, Shows,
  role_follows_port,
}
use usb3_otg.RoleManager.Thread
use usb3_otg.Drd.{Drd}
use usb3_otg.Drd.Monitor.{Switch, boot, for_edge, change, rest-Serves, Serves}
use usb3_otg.Drd.Monitor

-- The switch after the manager's outputs went from those of `m` to those of `m'`.
unfoldable pub wire : RoleManager → RoleManager → Switch → Switch
wire m m' s = record s {
  role = m'.current_role;
  edge = s.edge || (m'.role_changed && not m.role_changed);
}

-- A step of the manager's thread or its events, or of the monitor's.
pub data Step (a : Allows) (misses : Bool)
    : Net × (Switch × Drd) → Net × (Switch × Drd) → Type 0 where
  manages :
      (n n' : Net) (s : Switch) (d : Drd)
      → Thread.Step a n n'
      → Step a misses (n, (s, d)) (n', (wire n.manager n'.manager s, d))
  monitors :
      (n : Net) (x x' : Switch × Drd)
      → Monitor.Step misses x x'
      → x'.0.role ≡ x.0.role
      → Step a misses (n, x) (n, x')

pub data Reach (a : Allows) (misses : Bool) (x : Net × (Switch × Drd))
    : Net × (Switch × Drd) → Type 0 where
  here : Reach a misses x x
  next : {y z : Net × (Switch × Drd)} → Reach a misses x y → Step a misses y z → Reach a misses x z

-- The pulse rises with each change of the role and at no other time.
abbrev Rises : RoleManager → RoleManager → Type 0
Rises m m' =
    ((m'.current_role ≡ m.current_role) × (m'.role_changed && not m.role_changed ≡ false))
    ⊎ ((m'.current_role ≢ m.current_role) × (m'.role_changed && not m.role_changed ≡ true))

off : (m : RoleManager) → m.role_changed && not m.role_changed ≡ false
off m = ground arith

detect-Rises :
    (port : CcState) (vbus : Bool) (m : RoleManager)
    → Shows m
    → m.waiting ≡ for_event
    → Rises m (detect port vbus m)
unfolding detect
detect-Rises port vbus m h w = ground arith

Step-Rises :
    {a : Allows} {n n' : Net} → Thread.Step a n n' → Shows n.manager → Rises n.manager n'.manager
unfolding request_role end_pulse
Step-Rises (inputs s port power c) h = inl (refl, off s.manager)
Step-Rises (request s host c) h = inl (refl, off s.manager)
Step-Rises (request s device c) h = inl (refl, off s.manager)
Step-Rises (request s Role.none c) h = inl (refl, off s.manager)
Step-Rises (wake s p w) h = detect-Rises s.cc s.vbus s.manager h w
Step-Rises (drop s c p w) h = inl (refl, off s.manager)
Step-Rises (pulse_over s p w) h = inl (refl, refl)

wire-quiet :
    (m m' : RoleManager) (s : Switch)
    → m'.current_role ≡ s.role
    → m'.role_changed && not m.role_changed ≡ false
    → wire m m' s ≡ s
unfolding wire
wire-quiet m m' s r e =
    ap₂ (λ (x : Role) (b : Bool). (record s { role = x; edge = b })) r
      (edge (m'.role_changed && not m.role_changed) s.edge e)
  where
    edge : (x b : Bool) → x ≡ false → b || x ≡ b
    edge x b h = ground arith

wire-rising :
    (m m' : RoleManager) (s : Switch)
    → m'.role_changed && not m.role_changed ≡ true
    → wire m m' s ≡ record s { role = m'.current_role; edge = true }
unfolding wire
wire-rising m m' s e =
    ap (λ (b : Bool). (record s { role = m'.current_role; edge = b }))
      (edge (m'.role_changed && not m.role_changed) s.edge e)
  where
    edge : (x b : Bool) → x ≡ true → b || x ≡ true
    edge x b h = ground arith

shown : (n n' : Net) (s : Switch) → (wire n.manager n'.manager s).role ≡ n'.manager.current_role
unfolding wire
shown n n' s = refl

-- A joint run is a run of each, with the signal between them the same on both sides.
record Joined (a : Allows) (misses : Bool) (d : Drd) (y : Net × (Switch × Drd)) : Type 0 where
  managed : Thread.Reach a start y.0
  monitored : Monitor.Reach misses (boot, d) y.1
  joined : y.1.0.role ≡ y.0.manager.current_role

Step-Joined :
    {a : Allows} {misses : Bool} {d : Drd} {y z : Net × (Switch × Drd)}
    → Step a misses y z
    → Joined a misses d y
    → Joined a misses d z
Step-Joined {misses = misses} {d = d0} (manages n n' s d st) h =
    elim (Step-Rises st (Reach-Shows h.managed)) [
      | inl q ↦ record {
        managed = Thread.next h.managed st;
        monitored =
            subst (λ (t : Switch). Monitor.Reach misses (boot, d0) (t, d))
              (sym (wire-quiet n.manager n'.manager s (q.0 ∙ sym h.joined) q.1)) h.monitored;
        joined = shown n n' s;
      }
      | inr q ↦ record {
        managed = Thread.next h.managed st;
        monitored =
            subst (λ (t : Switch). Monitor.Reach misses (boot, d0) (t, d))
              (sym (wire-rising n.manager n'.manager s q.1))
              (Monitor.next h.monitored
                (change s d n'.manager.current_role (λ e. q.0 (e ∙ h.joined))));
        joined = shown n n' s;
      }
    ]
Step-Joined (monitors n x x' st r) h = record {
  managed = h.managed;
  monitored = Monitor.next h.monitored st;
  joined = r ∙ h.joined;
}

Reach-Joined :
    {a : Allows} {misses : Bool} {d : Drd} {y : Net × (Switch × Drd)}
    → Reach a misses (start, (boot, d)) y
    → Joined a misses d y
Reach-Joined here = record { managed = Thread.here; monitored = Monitor.here; joined = refl }
Reach-Joined (next r st) = Step-Joined st (Reach-Joined r)

-- In any joint run in which the firmware forces no role, no notification is dropped and no role
-- change falls into the monitor's microsecond: once nothing is pending in either thread, the host
-- controller is enabled exactly when CC and VBUS select the host role, and the device controller
-- exactly when they select the device role.
pub enable_follows_port :
    {a : Allows} {d : Drd} {y : Net × (Switch × Drd)}
    → a.requests ≡ false
    → a.drops ≡ false
    → Reach a false (start, (boot, d)) y
    → y.0.pending ≡ false
    → y.1.0.phase ≡ for_edge
    → y.1.0.edge ≡ false
    → ((y.1.0.host_enable ≡ true) ↔ (desired_role y.0.cc y.0.vbus ≡ host))
      × ((y.1.0.dev_enable ≡ true) ↔ (desired_role y.0.cc y.0.vbus ≡ device))
enable_follows_port q dr r p f e =
    let h = Reach-Joined r in
    let follows = h.joined ∙ role_follows_port q dr h.managed p in
    let (host_on, dev_on, on_host, on_dev) = rest-Serves h.monitored f e in
    (
      (λ o. sym follows ∙ host_on o, λ o. on_host (follows ∙ o)),
      (λ o. sym follows ∙ dev_on o, λ o. on_dev (follows ∙ o)),
    )

abbrev cc_eq : CcState → CcState → Bool
cc_eq cc_disconnected cc_disconnected = true
cc_eq cc_ufp_attached cc_ufp_attached = true
cc_eq cc_dfp_attached cc_dfp_attached = true
cc_eq _ _ = false

abbrev bool_eq : Bool → Bool → Bool
bool_eq true b = b
bool_eq false b = not b

-- `forward_inputs`: both inputs go to the signals that the role manager reads. A write of the value
-- that a signal has is no event.
unfoldable pub forward_inputs : CcState → Bool → Net → Net
forward_inputs port power n =
    if cc_eq port n.cc && bool_eq power n.vbus
    then n
    else record n { cc = port; vbus = power; pending = true }

-- That is the manager's step of a new input, or nothing.
forward_inputs-Step :
    {a : Allows} (port : CcState) (power : Bool) (n : Net)
    → (forward_inputs port power n ≡ n) ⊎ Thread.Step a n (forward_inputs port power n)
unfolding forward_inputs
forward_inputs-Step {a = a} port power n =
    elim (Bool-cases (cc_eq port n.cc && bool_eq power n.vbus)) [
      | inl e ↦ inl (if_true _ _ e)
      | inr e ↦ inr (
          subst (Thread.Step a n) (sym (if_false _ _ e))
            (inputs n port power (differ port n.cc power n.vbus e)))
    ]
  where
    differ : (x y : CcState) (p q : Bool) → cc_eq x y && bool_eq p q ≡ false → (x ≢ y) ⊎ (p ≢ q)
    differ x y p q h = ground arith
