-- ===== src/RoleManager/Decision.antt =====
-- src/usb3_role_manager.cpp, one turn of `role_detection_process`.
use usb3_otg.Base.{◌≡◌, ◌≢◌, ◌↔◌, Bool, true, false, arith}
use usb3_otg.Types.{host, device, CcState}
use usb3_otg.RoleManager.{RoleManager, for_event, for_pulse, desired_role, detect}

-- A turn uses up the requests. It ends in the device role if that was requested, else in the host
-- role if that was, else in the role that CC and VBUS select, whatever an earlier request forced.
pub detect_role :
    (cc : CcState) (vbus : Bool) (m : RoleManager)
    → let m' = detect cc vbus m in
      (m'.host_requested ≡ false)
      × (m'.device_requested ≡ false)
      × (m.device_requested ≡ true → m'.role ≡ device)
      × (m.device_requested ≡ false → m.host_requested ≡ true → m'.role ≡ host)
      × (m.device_requested ≡ false → m.host_requested ≡ false → m'.role ≡ desired_role cc vbus)
unfolding detect
detect_role cc vbus m = ground arith

-- For a thread that waits for an event: a turn ends in the wait for the pulse exactly when the
-- role is a new one; `role_changed` is then raised, and the port shows the new role.
pub detect_pulse :
    (cc : CcState) (vbus : Bool) (m : RoleManager)
    → m.waiting ≡ for_event
    → let m' = detect cc vbus m in
      ((m'.role ≢ m.role) ↔ (m'.waiting ≡ for_pulse))
      × (m'.role ≢ m.role → (m'.role_changed ≡ true) × (m'.current_role ≡ m'.role))
unfolding detect
detect_pulse cc vbus m h = ground arith
