-- ===== src/RoleManager/Missed.antt =====
-- src/usb3_role_manager.cpp, what becomes of an event that comes while `apply_role` holds its pulse.
use usb3_otg.Base.{◌≡◌, refl, ◌∙◌, ◌≢◌, true, false, arith}
use usb3_otg.Types.{Role, host, device}
use usb3_otg.RoleManager.{RoleManager, for_event, for_pulse, detect, end_pulse, request_role}
use usb3_otg.RoleManager.Thread.{
  Net, Allows, Step, inputs, request, wake, drop, pulse_over, Reach, here, next,
}

abbrev all_allowed : Allows
all_allowed = record { requests = true; drops = true }

-- The turn that a notification starts, a request during its pulse, and the end of the pulse.
abbrev pub after_pulse : Role → Net → Net
after_pulse r s = record s {
  pending = false;
  manager = end_pulse (request_role r (detect s.cc s.vbus s.manager));
}

keeps_waiting :
    (r : Role) (m : RoleManager) → m.waiting ≡ for_pulse → (request_role r m).waiting ≡ for_pulse
unfolding request_role
keeps_waiting r m h = ground arith

abbrev pub IsAsked : Role → RoleManager → Type 0
IsAsked host m = m.host_requested ≡ true
IsAsked device m = m.device_requested ≡ true
IsAsked Role.none m = Unit

-- The kernel has nothing to run: no notification is pending and the thread waits for one.
abbrev pub IsIdle : Net → Type 0
IsIdle s = (s.pending ≡ false) × (s.manager.waiting ≡ for_event)

idle_keeps_role : {s t : Net} → Step all_allowed s t → IsIdle s → t.manager.role ≡ s.manager.role
unfolding request_role
idle_keeps_role (inputs s port power c) h = refl
idle_keeps_role (request s r c) h = ground arith
idle_keeps_role (wake s p w) h = cc
idle_keeps_role (drop s c p w) h = cc
idle_keeps_role (pulse_over s p w) h = cc

-- When a notification is pending, the thread waits for it and its turn changes the role, then a
-- request for the host or the device role that comes during the announcement can be recorded and
-- not acted on: the run goes on to a state with no pending notification and the thread waiting
-- for one, where the request is still flagged, the role is the earlier one, and no single step, a
-- new event included, changes it.
pub request_missed :
    (r : Role) (s : Net)
    → r ≢ Role.none
    → s.pending ≡ true
    → s.manager.waiting ≡ for_event
    → (detect s.cc s.vbus s.manager).waiting ≡ for_pulse
    → Reach all_allowed s (after_pulse r s)
      × IsIdle (after_pulse r s)
      × IsAsked r (after_pulse r s).manager
      × ((after_pulse r s).manager.role ≡ (detect s.cc s.vbus s.manager).role)
      × ((u : Net)
          → Step all_allowed (after_pulse r s) u
          → u.manager.role ≡ (detect s.cc s.vbus s.manager).role)
unfolding end_pulse request_role
request_missed r s n p w d = (
  next (next (next (next here (wake s p w)) (request _ r refl)) (drop _ refl refl held))
      (pulse_over _ refl held),
  (refl, idle),
  asked r n,
  same,
  λ u st. idle_keeps_role st (refl, idle) ∙ same,
)
  where
    turned : RoleManager
    turned = detect s.cc s.vbus s.manager

    held : (request_role r turned).waiting ≡ for_pulse
    held = keeps_waiting r turned d

    idle : (end_pulse (request_role r turned)).waiting ≡ for_event
    idle = refl

    asked : (q : Role) → q ≢ Role.none → IsAsked q (end_pulse (request_role q turned))
    asked host _ = refl
    asked device _ = refl
    asked Role.none h = absurd (h refl)

    same : (end_pulse (request_role r turned)).role ≡ turned.role
    same = ground arith
