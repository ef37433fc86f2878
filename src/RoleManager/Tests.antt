-- ===== src/RoleManager/Tests.antt =====
-- The role manager's theorems and definitions at concrete inputs.
use usb3_otg.Base.{◌≡◌, refl, inl, true, false}
use usb3_otg.Types.{host, device, cc_ufp_attached}
use usb3_otg.RoleManager.{RoleManager, init, detect, end_pulse, request_role}
use usb3_otg.RoleManager.Decision.{detect_role, detect_pulse}
use usb3_otg.RoleManager.Thread.{
  Net, Allows, inputs, wake, pulse_over, Reach, here, next, start, Shows, IsServed, Reach-Shows,
  Reach-IsServed, role_follows_port,
}
use usb3_otg.RoleManager.Missed.{IsAsked, after_pulse, request_missed}

-- A peripheral is attached, and the firmware has asked for the device role.
abbrev overridden : RoleManager
overridden = record init { device_requested = true }

override_takes_device : (detect cc_ufp_attached true overridden).role ≡ device
override_takes_device = (detect_role cc_ufp_attached true overridden).2 refl

attach_raises_pulse : (detect cc_ufp_attached true init).role_changed ≡ true
unfolding detect
attach_raises_pulse = ((detect_pulse cc_ufp_attached true init refl).1 (λ e. cc)).0

both_requested :
    (detect cc_ufp_attached true (request_role device (request_role host init))).role ≡ device
unfolding detect request_role
both_requested = refl

-- The next event undoes an override.
override_undone :
    (detect cc_ufp_attached true (end_pulse (detect cc_ufp_attached true overridden))).role ≡ host
unfolding detect end_pulse
override_undone = refl

abbrev port_only : Allows
port_only = record { requests = false; drops = false }

abbrev attached : Net
attached = record start { cc = cc_ufp_attached; vbus = true; pending = true }

abbrev as_host : Net
as_host = record attached {
  pending = false;
  manager = end_pulse (detect cc_ufp_attached true init);
}

Reach-attached : (a : Allows) → Reach a start attached
Reach-attached a = next here (inputs start cc_ufp_attached true (inl (λ e. cc)))

Reach-as_host : (a : Allows) → Reach a start as_host
unfolding detect end_pulse
Reach-as_host a = next (next (Reach-attached a) (wake attached refl refl)) (pulse_over _ refl refl)

as_host-Shows : Shows as_host.manager
as_host-Shows = Reach-Shows (Reach-as_host port_only)

as_host-IsServed : IsServed as_host
as_host-IsServed = Reach-IsServed refl (Reach-as_host port_only)

role_follows_port_example : as_host.manager.current_role ≡ host
role_follows_port_example = role_follows_port refl refl (Reach-as_host port_only) refl

request_missed_example : IsAsked device (after_pulse device attached).manager
unfolding detect
request_missed_example = (request_missed device attached (λ e. cc) refl refl refl).2
