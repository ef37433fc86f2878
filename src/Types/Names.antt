-- ===== src/Types/Names.antt =====
-- include/usb3_types.h, the overloads of `to_cstr`: the names that the log shows.
use Prim.Native.String.{String}
use usb3_otg.Types.{
  Role, host, device, CcState, cc_disconnected, cc_ufp_attached, cc_dfp_attached, Speed,
  disconnected, full_speed, high_speed, super_speed, super_speed_plus, PktType, tp_ack, tp_nrdy,
  tp_erdy, tp_stall, dp_data, setup, ctrl_data, ctrl_status, bulk_in, bulk_out,
}

abbrev pub role_to_cstr : Role → String
role_to_cstr host = "HOST"
role_to_cstr device = "DEVICE"
role_to_cstr Role.none = "NONE"

abbrev pub cc_state_to_cstr : CcState → String
cc_state_to_cstr cc_ufp_attached = "UFP_ATTACHED(Host_Mode)"
cc_state_to_cstr cc_dfp_attached = "DFP_ATTACHED(Device_Mode)"
cc_state_to_cstr cc_disconnected = "DISCONNECTED"

abbrev pub speed_to_cstr : Speed → String
speed_to_cstr full_speed = "FS"
speed_to_cstr high_speed = "HS"
speed_to_cstr super_speed = "SS"
speed_to_cstr super_speed_plus = "SS+"
speed_to_cstr disconnected = "DISCONNECTED"

abbrev pub pkt_type_to_cstr : PktType → String
pkt_type_to_cstr tp_ack = "ACK"
pkt_type_to_cstr tp_nrdy = "NRDY"
pkt_type_to_cstr tp_erdy = "ERDY"
pkt_type_to_cstr tp_stall = "STALL"
pkt_type_to_cstr setup = "SETUP"
pkt_type_to_cstr ctrl_data = "CTRL_DATA"
pkt_type_to_cstr ctrl_status = "CTRL_STATUS"
pkt_type_to_cstr dp_data = "DP_DATA"
pkt_type_to_cstr bulk_in = "BULK_IN"
pkt_type_to_cstr bulk_out = "BULK_OUT"
