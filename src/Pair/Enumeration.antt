-- ===== src/Pair/Enumeration.antt =====
-- src/usb3_host_controller.cpp and src/usb3_device_controller.cpp, `enumerate_device` of one dual-role
-- device over the device controller of another.
use usb3_otg.Base.{ℕ, suc, ◌+◌, ◌%◌, ◌^◌, ◌≡◌, refl, true, u8, [], ◌∷◌}
use usb3_otg.Types.{host, device}
use usb3_otg.Types.Tlm.{Status}
use usb3_otg.Protocol
use usb3_otg.Host.{Host}
use usb3_otg.Host.Enumerate.{enumerate_device}
use usb3_otg.Device
use usb3_otg.Device.Descriptors.{default_device}
use usb3_otg.Pair.{Block, Pair, near_side, host_env, upstream_b_transport}

abbrev pub idle : ℕ → Pair → Pair
idle n p = p

-- The near block as the host and the far one as the device, switched on, whatever they hold
-- otherwise. No code changes the descriptors after the constructor.
abbrev pub joined : Block → Block → Pair
joined n f = record {
  near = record n { role = host };
  far = record f {
    role = device;
    dev_enable = true;
    device = record (f.device) {
      dev_desc = Device.init.dev_desc;
      config_blob = Device.init.config_blob;
    };
  };
}

-- What the enumeration has done in the host's block and in the device's.
pub record IsEnumerated (n f : Block) (t : Host × Pair) : Type 0 where
  pub info : t.0.dev ≡ record {
    addr = n.host.next_addr;
    vendor_id = 0xAB12;
    product_id = 0xCD34;
    num_configs = 1;
    active_config = 1;
    enumerated = true;
    speed = n.host.dev.speed;
  }
  pub address_shown : t.0.dev_addr_out ≡ n.host.next_addr
  pub address_used : t.0.next_addr ≡ u8 (n.host.next_addr + 1)
  pub device_address : t.1.far.device.assigned_addr ≡ n.host.next_addr % 2 ^ 7
  pub configured : t.1.far.device.configured ≡ true
  pub port_shows : t.1.far.device.configured_port ≡ true
  pub left_over : t.0.resp_valid ≡ true
  pub status_byte : t.0.resp_data ≡ 0 ∷ []

module _ (fresh : Status) (depth : ℕ) where
  -- With two calls or more from side to side inside one another, no other process in the waits, the
  -- descriptors of the constructor, and whatever both blocks hold otherwise: the host of one block
  -- enumerates the device controller of the other. The device is configured at the low seven bits of
  -- the address that the host notes, with the identity of its descriptors, and the packet of the
  -- device's last status stage is left in the host as a response of one zero byte.
  pub enumerate_device-IsEnumerated :
      (n f : Block)
      → IsEnumerated n f
          (enumerate_device (host_env fresh idle (suc (suc depth)) near_side) (n.host, joined n f))
  unfolding Device.init Device.fit enumerate_device usb3_otg.Host.get_descriptor
      usb3_otg.Host.set_address usb3_otg.Host.set_configuration usb3_otg.Host.ctrl_transfer
      usb3_otg.Host.setup_stage usb3_otg.Host.data_stage usb3_otg.Host.status_stage
      Protocol.host_b_transport upstream_b_transport Protocol.link_b_transport
      Protocol.device_b_transport usb3_otg.Pair.to_host usb3_otg.Pair.to_device
      usb3_otg.Host.from_protocol_b_transport usb3_otg.Host.Enumerate.note_device
      usb3_otg.Host.Enumerate.note_config Device.from_proto_b_transport Device.descriptor_response
      Device.Descriptors.dev_desc_to_bytes
  enumerate_device-IsEnumerated n f = record {
    info = refl;
    address_shown = refl;
    address_used = refl;
    device_address = refl;
    configured = refl;
    port_shows = refl;
    left_over = refl;
    status_byte = refl;
  }
