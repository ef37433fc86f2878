-- ===== src/Device/Blob.antt =====
-- src/usb3_device_controller.cpp, `init_descriptors`: the configuration that the device reports.
use usb3_otg.Base.{
  ℕ, zero, suc, ◌+◌, ◌*◌, ◌≡◌, refl, Option, none, some, List, [], ◌∷◌, length, get_or, take, drop,
  ltb, if◌then◌else◌, ◌&&◌, leb,
}
use mathlib.Core.Option
use usb3_otg.Device.{Device, init_descriptors}
use usb3_otg.Device.Descriptors.{config_bytes, interface_bytes, endpoint_bytes, companion_bytes}

-- A host's walk over a configuration: the type and the bytes of each descriptor, by the length that
-- its first byte states. `none` when a length is 0 or runs past the end.
walk_fuel : ℕ → List ℕ → Option (List (ℕ × List ℕ))
walk_fuel zero bs = none
walk_fuel (suc f) [] = some []
walk_fuel (suc f) (n ∷ bs) =
    let rest = walk_fuel f (drop n (n ∷ bs)) in
    if ltb 0 n && leb n (length (n ∷ bs))
    then Option.map (λ ds. (get_or bs 0 0, take n (n ∷ bs)) ∷ ds) rest
    else none

unfoldable pub walk : List ℕ → Option (List (ℕ × List ℕ))
unfolding walk_fuel
walk bs = walk_fuel (suc (length bs)) bs

-- The descriptors as a host would list them.
abbrev pub listed : Device → List (ℕ × List ℕ)
listed d =
    (d.cfg_desc.descriptor_type, config_bytes (record (d.cfg_desc) { total_length = 44 }))
    ∷ (d.intf_desc.descriptor_type, interface_bytes d.intf_desc)
    ∷ (
      d.ep1_desc.descriptor_type,
      endpoint_bytes (record (d.ep1_desc) { endpoint_address = 0x81; attributes = 0x02 }),
    )
    ∷ (d.ep1_comp.descriptor_type, companion_bytes d.ep1_comp)
    ∷ (
      d.ep2_desc.descriptor_type,
      endpoint_bytes (record (d.ep2_desc) { endpoint_address = 0x02; attributes = 0x02 }),
    )
    ∷ (d.ep2_comp.descriptor_type, companion_bytes d.ep2_comp)
    ∷ []

-- The structs state the lengths that they have.
pub record StatesLengths (d : Device) : Type 0 where
  pub of_config : d.cfg_desc.len ≡ 9
  pub of_interface : d.intf_desc.len ≡ 9
  pub of_ep1 : d.ep1_desc.len ≡ 7
  pub of_ep1_comp : d.ep1_comp.len ≡ 6
  pub of_ep2 : d.ep2_desc.len ≡ 7
  pub of_ep2_comp : d.ep2_comp.len ≡ 6

-- Where the descriptor structs state their own lengths, and whatever they hold besides,
-- `init_descriptors` makes a blob that a host takes apart into the configuration, the interface,
-- and each endpoint followed by its companion: endpoint 1 IN and endpoint 2 OUT, both bulk. The
-- total length that it states is its length.
pub init_descriptors-walk :
    (d : Device)
    → StatesLengths d
    → let blob = (init_descriptors d).config_blob in
      (walk blob ≡ some (listed d)) × (get_or blob 2 0 + 256 * get_or blob 3 0 ≡ length blob)
unfolding init_descriptors walk
init_descriptors-walk d h = (
  rw (h.of_config, h.of_interface, h.of_ep1, h.of_ep1_comp, h.of_ep2, h.of_ep2_comp, walk) refl,
  refl,
)
