-- ===== src/Types.antt =====
-- include/usb3_types.h: the enumerations, the setup packet and the packet extension.
-- Transactions (`tlm_generic_payload`) are in Types/Tlm, the log names in Types/Names.
pub mod Tlm
pub mod Names
use usb3_otg.Base.{ℕ}

abbrev pub usb_desc_device : ℕ
usb_desc_device = 0x01

abbrev pub usb_desc_configuration : ℕ
usb_desc_configuration = 0x02

abbrev pub usb_desc_string : ℕ
usb_desc_string = 0x03

abbrev pub usb_desc_interface : ℕ
usb_desc_interface = 0x04

abbrev pub usb_desc_endpoint : ℕ
usb_desc_endpoint = 0x05

abbrev pub usb_desc_bos : ℕ
usb_desc_bos = 0x0F

abbrev pub usb_desc_ss_ep_comp : ℕ
usb_desc_ss_ep_comp = 0x30

abbrev pub usb_req_get_status : ℕ
usb_req_get_status = 0x00

abbrev pub usb_req_set_address : ℕ
usb_req_set_address = 0x05

abbrev pub usb_req_get_descriptor : ℕ
usb_req_get_descriptor = 0x06

abbrev pub usb_req_set_configuration : ℕ
usb_req_set_configuration = 0x09

pub data Role : Type 0 where
  none host device : Role

abbrev pub role_code : Role → ℕ
role_code Role.none = 0
role_code host = 1
role_code device = 2

pub data CcState : Type 0 where
  cc_disconnected cc_ufp_attached cc_dfp_attached : CcState

pub data Speed : Type 0 where
  disconnected full_speed high_speed super_speed super_speed_plus : Speed

abbrev pub speed_code : Speed → ℕ
speed_code disconnected = 0
speed_code full_speed = 1
speed_code high_speed = 2
speed_code super_speed = 3
speed_code super_speed_plus = 4

pub data PktType : Type 0 where
  tp_ack tp_nrdy tp_erdy tp_stall dp_data setup ctrl_data ctrl_status bulk_in bulk_out : PktType

pub data Dir : Type 0 where
  host_to_device device_to_host : Dir

pub data EpType : Type 0 where
  control isoch bulk interrupt : EpType

pub data Completion : Type 0 where
  success stall_err : Completion

-- Sixteen-bit fields stand below 2 ^ 16 and eight-bit fields below 2 ^ 8.
pub record SetupPkt : Type 0 where
  pub request_type : ℕ
  pub request : ℕ
  pub value : ℕ
  pub index : ℕ
  pub len : ℕ

abbrev pub empty_setup : SetupPkt
empty_setup = record { request_type = 0; request = 0; value = 0; index = 0; len = 0 }

pub record PktExt : Type 0 where
  pub pkt_type : PktType
  pub dev_addr : ℕ
  pub endpoint : ℕ
  pub direction : Dir
  pub ep_type : EpType
  pub code : Completion
  pub seq_num : ℕ
  pub setup_pkt : SetupPkt

-- `usb3_pkt_ext_t{}`: the member initialisers.
abbrev pub default_ext : PktExt
default_ext = record {
  pkt_type = dp_data;
  dev_addr = 0;
  endpoint = 0;
  direction = host_to_device;
  ep_type = bulk;
  code = success;
  seq_num = 0;
  setup_pkt = empty_setup;
}

-- What the TLM library copies an extension by: a new one, and an assignment over another.
abbrev pub clone : PktExt → PktExt
clone this = this

abbrev pub copy_from : PktExt → PktExt → PktExt
copy_from ext this = ext

abbrev pub make_usb3_ext : PktType → ℕ → ℕ → Dir → EpType → PktExt
make_usb3_ext pkt_type dev_addr endpoint direction ep_type = record default_ext {
  pkt_type = pkt_type;
  dev_addr = dev_addr;
  endpoint = endpoint;
  direction = direction;
  ep_type = ep_type;
}
