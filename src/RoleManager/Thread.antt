-- ===== src/RoleManager/Thread.antt =====
-- src/usb3_role_manager.cpp, the thread among its events: value changes of CC and VBUS, requests of
-- the firmware, and the simulation kernel, which delivers a notification to the thread if it waits
-- for one and drops it while the thread waits for the pulse to end. A notification is for the next
-- delta cycle, so it is delivered or dropped before the ten nanoseconds of a pulse are over.
use usb3_otg.Base.{◌≡◌, refl, ◌∙◌, ◌≢◌, ◌⊎◌, Bool, true, false, arith}
use usb3_otg.Types.{Role, CcState, cc_disconnected}
use usb3_otg.RoleManager.{
  RoleManager, for_event, for_pulse, init, desired_role, detect, end_pulse, request_role,
}
use usb3_otg.RoleManager.Decision.{detect_role}

pub record Net : Type 0 where
  pub cc : CcState
  pub vbus : Bool
  pub pending : Bool
  pub manager : RoleManager

abbrev pub start : Net
start = record { cc = cc_disconnected; vbus = false; pending = false; manager = init }

-- What a run may contain: requests of the firmware, and dropped notifications.
pub record Allows : Type 0 where
  pub requests : Bool
  pub drops : Bool

pub data Step (a : Allows) : Net → Net → Type 0 where
  inputs :
      (s : Net) (cc : CcState) (vbus : Bool)
      → (cc ≢ s.cc) ⊎ (vbus ≢ s.vbus)
      → Step a s (record s { cc = cc; vbus = vbus; pending = true })
  request :
      (s : Net) (r : Role)
      → a.requests ≡ true
      → Step a s (record s { pending = true; manager = request_role r s.manager })
  wake :
      (s : Net)
      → s.pending ≡ true
      → s.manager.waiting ≡ for_event
      → Step a s (record s { pending = false; manager = detect s.cc s.vbus s.manager })
  drop :
      (s : Net)
      → a.drops ≡ true
      → s.pending ≡ true
      → s.manager.waiting ≡ for_pulse
      → Step a s (record s { pending = false })
  pulse_over :
      (s : Net)
      → s.pending ≡ false
      → s.manager.waiting ≡ for_pulse
      → Step a s (record s { manager = end_pulse s.manager })

pub data Reach (a : Allows) (s : Net) : Net → Type 0 where
  here : Reach a s s
  next : {t u : Net} → Reach a s t → Step a t u → Reach a s u

-- The ports show the role, and the pulse stands exactly while the thread waits for its end.
pub record Shows (m : RoleManager) : Type 0 where
  pub shown : m.current_role ≡ m.role
  pub pulsed : m.role_changed ≡ true → m.waiting ≡ for_pulse
  pub ended : m.waiting ≡ for_pulse → m.role_changed ≡ true

request-Shows : (r : Role) (m : RoleManager) → Shows m → Shows (request_role r m)
unfolding request_role
request-Shows r m h = ground arith

detect-Shows : (cc : CcState) (vbus : Bool) (m : RoleManager) → Shows m → Shows (detect cc vbus m)
unfolding detect
detect-Shows cc vbus m h = ground arith

end_pulse-Shows : (m : RoleManager) → Shows m → Shows (end_pulse m)
unfolding end_pulse
end_pulse-Shows m h = ground arith

Step-Shows : {a : Allows} {s t : Net} → Step a s t → Shows s.manager → Shows t.manager
Step-Shows (inputs s port power c) h = h
Step-Shows (request s r c) h = request-Shows r s.manager h
Step-Shows (wake s p w) h = detect-Shows s.cc s.vbus s.manager h
Step-Shows (drop s c p w) h = h
Step-Shows (pulse_over s p w) h = end_pulse-Shows s.manager h

-- In every run from the start, dropped notifications included, the port shows the role, and
-- `role_changed` is raised exactly while the thread waits for the pulse to end.
pub Reach-Shows : {a : Allows} {s : Net} → Reach a start s → Shows s.manager
Reach-Shows here = ground arith
Reach-Shows (next r st) = Step-Shows st (Reach-Shows r)

-- No request is left over once nothing is pending.
abbrev pub IsServed : Net → Type 0
IsServed s =
    s.pending ≡ false → (s.manager.host_requested ≡ false) × (s.manager.device_requested ≡ false)

Step-IsServed : {a : Allows} {s t : Net} → Step a s t → a.drops ≡ false → IsServed s → IsServed t
unfolding end_pulse
Step-IsServed (inputs s port power c) d h = λ e. cc
Step-IsServed (request s r c) d h = λ e. cc
Step-IsServed (wake s p w) d h =
    λ _. ((detect_role s.cc s.vbus s.manager).0, (detect_role s.cc s.vbus s.manager).1)
Step-IsServed (drop s c p w) d h = cc
Step-IsServed (pulse_over s p w) d h = λ _. h p

-- In a run from the start in which no notification is dropped, no request of the firmware is left
-- over once nothing is pending.
pub Reach-IsServed : {a : Allows} {s : Net} → a.drops ≡ false → Reach a start s → IsServed s
Reach-IsServed d here = λ _. (refl, refl)
Reach-IsServed d (next r st) = Step-IsServed st d (Reach-IsServed d r)

-- Without requests, nothing is flagged and a settled role is the one that the port selects.
record Follows (s : Net) : Type 0 where
  no_host : s.manager.host_requested ≡ false
  no_device : s.manager.device_requested ≡ false
  settled : s.pending ≡ false → s.manager.role ≡ desired_role s.cc s.vbus

Step-Follows :
    {a : Allows} {s t : Net}
    → Step a s t
    → a.requests ≡ false
    → a.drops ≡ false
    → Follows s
    → Follows t
unfolding end_pulse
Step-Follows (inputs s port power c) q d h = record {
  no_host = h.no_host;
  no_device = h.no_device;
  settled = λ e. cc;
}
Step-Follows (request s r c) q d h = cc
Step-Follows (wake s p w) q d h =
    let (nh, nd, _, _, port) = detect_role s.cc s.vbus s.manager in
    record { no_host = nh; no_device = nd; settled = λ _. port h.no_device h.no_host }
Step-Follows (drop s c p w) q d h = cc
Step-Follows (pulse_over s p w) q d h = record {
  no_host = h.no_host;
  no_device = h.no_device;
  settled = h.settled;
}

Reach-Follows :
    {a : Allows} {s : Net} → a.requests ≡ false → a.drops ≡ false → Reach a start s → Follows s
Reach-Follows q d here = record { no_host = refl; no_device = refl; settled = λ _. refl }
Reach-Follows q d (next r st) = Step-Follows st q d (Reach-Follows q d r)

-- In a run from the start in which the firmware forces no role and no notification is dropped,
-- the role that the port shows is the one that CC and VBUS select, as soon as nothing is pending.
pub role_follows_port :
    {a : Allows} {s : Net}
    → a.requests ≡ false
    → a.drops ≡ false
    → Reach a start s
    → s.pending ≡ false
    → s.manager.current_role ≡ desired_role s.cc s.vbus
role_follows_port q d r p = (Reach-Shows r).shown ∙ (Reach-Follows q d r).settled p
