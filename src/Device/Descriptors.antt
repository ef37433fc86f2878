-- ===== src/Device/Descriptors.antt =====
-- include/usb3_device_controller.h, the packed descriptor structs, and the helpers of
-- src/usb3_device_controller.cpp that copy them byte by byte: 16-bit fields lie low byte first.
use usb3_otg.Base.{ℕ, ◌+◌, ◌/◌, ◌%◌, ◌^◌, List, [], ◌∷◌, ◌++◌, le16, length, set, u16}
use usb3_otg.Types.{
  usb_desc_device, usb_desc_configuration, usb_desc_interface, usb_desc_endpoint,
  usb_desc_ss_ep_comp,
}

pub record DeviceDescriptor : Type 0 where
  pub len : ℕ
  pub descriptor_type : ℕ
  pub bcd_usb : ℕ
  pub device_class : ℕ
  pub device_sub_class : ℕ
  pub device_protocol : ℕ
  pub max_packet_size0 : ℕ
  pub id_vendor : ℕ
  pub id_product : ℕ
  pub bcd_device : ℕ
  pub i_manufacturer : ℕ
  pub i_product : ℕ
  pub i_serial_number : ℕ
  pub num_configurations : ℕ

abbrev pub default_device : DeviceDescriptor
default_device = record {
  len = 18;
  descriptor_type = usb_desc_device;
  bcd_usb = 0x0300;
  device_class = 0xFF;
  device_sub_class = 0x00;
  device_protocol = 0x00;
  max_packet_size0 = 9;
  id_vendor = 0xAB12;
  id_product = 0xCD34;
  bcd_device = 0x0100;
  i_manufacturer = 1;
  i_product = 2;
  i_serial_number = 3;
  num_configurations = 1;
}

pub record ConfigDescriptor : Type 0 where
  pub len : ℕ
  pub descriptor_type : ℕ
  pub total_length : ℕ
  pub num_interfaces : ℕ
  pub configuration_value : ℕ
  pub i_configuration : ℕ
  pub attributes : ℕ
  pub max_power : ℕ

abbrev pub default_config : ConfigDescriptor
default_config = record {
  len = 9;
  descriptor_type = usb_desc_configuration;
  total_length = 9 + 9 + 7 + 6 + 7 + 6;
  num_interfaces = 1;
  configuration_value = 1;
  i_configuration = 0;
  attributes = 0xC0;
  max_power = 0;
}

pub record InterfaceDescriptor : Type 0 where
  pub len : ℕ
  pub descriptor_type : ℕ
  pub interface_number : ℕ
  pub alternate_setting : ℕ
  pub num_endpoints : ℕ
  pub interface_class : ℕ
  pub interface_sub_class : ℕ
  pub interface_protocol : ℕ
  pub i_interface : ℕ

abbrev pub default_interface : InterfaceDescriptor
default_interface = record {
  len = 9;
  descriptor_type = usb_desc_interface;
  interface_number = 0;
  alternate_setting = 0;
  num_endpoints = 2;
  interface_class = 0xFF;
  interface_sub_class = 0x00;
  interface_protocol = 0x00;
  i_interface = 0;
}

pub record EndpointDescriptor : Type 0 where
  pub len : ℕ
  pub descriptor_type : ℕ
  pub endpoint_address : ℕ
  pub attributes : ℕ
  pub max_packet_size : ℕ
  pub interval : ℕ

abbrev pub default_endpoint : EndpointDescriptor
default_endpoint = record {
  len = 7;
  descriptor_type = usb_desc_endpoint;
  endpoint_address = 0;
  attributes = 0x02;
  max_packet_size = 1024;
  interval = 0;
}

pub record CompanionDescriptor : Type 0 where
  pub len : ℕ
  pub descriptor_type : ℕ
  pub max_burst : ℕ
  pub attributes : ℕ
  pub bytes_per_interval : ℕ

abbrev pub default_companion : CompanionDescriptor
default_companion = record {
  len = 6;
  descriptor_type = usb_desc_ss_ep_comp;
  max_burst = 0;
  attributes = 0;
  bytes_per_interval = 0;
}

-- `dev_desc_to_bytes`.
unfoldable pub dev_desc_to_bytes : DeviceDescriptor → List ℕ
dev_desc_to_bytes d =
    d.len
    ∷ d.descriptor_type
    ∷ (le16 d.bcd_usb
        ++ (d.device_class
            ∷ d.device_sub_class
            ∷ d.device_protocol
            ∷ d.max_packet_size0
            ∷ (le16 d.id_vendor
                ++ (le16 d.id_product
                    ++ (le16 d.bcd_device
                        ++ (d.i_manufacturer ∷ d.i_product ∷ d.i_serial_number
                            ∷ d.num_configurations ∷ []))))))

abbrev pub config_bytes : ConfigDescriptor → List ℕ
config_bytes d =
    d.len
    ∷ d.descriptor_type
    ∷ (le16 d.total_length
        ++ (d.num_interfaces ∷ d.configuration_value ∷ d.i_configuration ∷ d.attributes
            ∷ d.max_power ∷ []))

abbrev pub interface_bytes : InterfaceDescriptor → List ℕ
interface_bytes d =
    d.len ∷ d.descriptor_type ∷ d.interface_number ∷ d.alternate_setting ∷ d.num_endpoints
    ∷ d.interface_class ∷ d.interface_sub_class ∷ d.interface_protocol ∷ d.i_interface ∷ []

abbrev pub endpoint_bytes : EndpointDescriptor → List ℕ
endpoint_bytes d =
    d.len
    ∷ d.descriptor_type
    ∷ d.endpoint_address
    ∷ d.attributes
    ∷ (le16 d.max_packet_size ++ (d.interval ∷ []))

abbrev pub companion_bytes : CompanionDescriptor → List ℕ
companion_bytes d =
    d.len ∷ d.descriptor_type ∷ d.max_burst ∷ d.attributes ∷ (le16 d.bytes_per_interval ++ [])

-- `append_bytes`: the loop pushes the bytes one after the other.
unfoldable pub append_bytes : List ℕ → List ℕ → List ℕ
append_bytes dest [] = dest
append_bytes dest (b ∷ bs) = append_bytes (dest ++ b ∷ []) bs

-- The end of `init_descriptors`: the total length goes to bytes 2 and 3.
unfoldable pub patch_total : List ℕ → List ℕ
patch_total blob =
    let total = u16 (length blob) in set (set blob 2 (total % 256)) 3 (total / 2 ^ 8 % 256)
