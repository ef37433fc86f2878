-- ===== src/RoleManager.antt =====
-- include/usb3_role_manager.h and src/usb3_role_manager.cpp: the role that CC, VBUS and the firmware
-- select. `detect` is one turn of the thread's loop up to the wait of `apply_role`, `end_pulse` what
-- follows that wait; RoleManager/Thread says when the simulation kernel runs which.
pub mod Decision
pub mod Thread
pub mod Missed
mod Tests
use usb3_otg.Base.{Bool, true, false, ◌||◌, not, if◌then◌else◌}
use usb3_otg.Types.{Role, host, device, CcState, cc_disconnected, cc_ufp_attached, cc_dfp_attached}

-- Where the thread waits: for an event, or for the pulse of `role_changed` to end.
pub data Waiting : Type 0 where
  for_event for_pulse : Waiting

-- The members, the values last written to the two output ports, and the thread's wait.
pub record RoleManager : Type 0 where
  pub role : Role
  pub host_requested : Bool
  pub device_requested : Bool
  pub current_role : Role
  pub role_changed : Bool
  pub waiting : Waiting

abbrev pub role_eq : Role → Role → Bool
role_eq Role.none Role.none = true
role_eq host host = true
role_eq device device = true
role_eq _ _ = false

-- The constructor's values, and the thread's writes before its loop.
abbrev pub init : RoleManager
init = record {
  role = Role.none;
  host_requested = false;
  device_requested = false;
  current_role = Role.none;
  role_changed = false;
  waiting = for_event;
}

-- Who is attached decides, while VBUS is on.
abbrev pub desired_role : CcState → Bool → Role
desired_role cc_ufp_attached true = host
desired_role cc_dfp_attached true = device
desired_role _ _ = Role.none

unfoldable pub apply_role : Role → RoleManager → RoleManager
apply_role new m =
    if role_eq new m.role
    then m
    else record m { role = new; current_role = new; role_changed = true; waiting = for_pulse }

-- A request of the firmware takes the place of what the port says, the device role last.
unfoldable pub chosen_role : Role → RoleManager → Role
chosen_role desired m =
    if m.device_requested then device else if m.host_requested then host else desired

unfoldable pub detect : CcState → Bool → RoleManager → RoleManager
unfolding apply_role chosen_role
detect cc vbus m =
    let desired = desired_role cc vbus in
    if not (role_eq desired m.role) || (m.host_requested || m.device_requested)
    then apply_role (chosen_role desired m)
        (record m { host_requested = false; device_requested = false })
    else m

unfoldable pub end_pulse : RoleManager → RoleManager
end_pulse m = record m { role_changed = false; waiting = for_event }

-- The members after `request_role`, which also notifies `m_role_request_event`.
unfoldable pub request_role : Role → RoleManager → RoleManager
request_role host m = record m { host_requested = true }
request_role device m = record m { device_requested = true }
request_role Role.none m = m
