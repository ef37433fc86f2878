-- ===== src/Host/Setup.antt =====
-- src/usb3_host_controller.cpp, the setup packets that the host builds and their bytes on the wire.
use usb3_otg.Base.{ℕ, ◌+◌, ◌*◌, ◌^◌, ◌<◌, ◌≡◌, List, arith, get_or}
use usb3_otg.Types.{SetupPkt}
use usb3_otg.Host.{pack_setup_packet}

-- The fields at the offsets that the USB specification gives them, 16-bit fields low byte first.
abbrev pub unpack : List ℕ → SetupPkt
unpack bs = record {
  request_type = get_or bs 0 0;
  request = get_or bs 1 0;
  value = get_or bs 2 0 + 2 ^ 8 * get_or bs 3 0;
  index = get_or bs 4 0 + 2 ^ 8 * get_or bs 5 0;
  len = get_or bs 6 0 + 2 ^ 8 * get_or bs 7 0;
}

pub record Fits (s : SetupPkt) : Type 0 where
  pub value_fits : s.value < 2 ^ 16
  pub index_fits : s.index < 2 ^ 16
  pub len_fits : s.len < 2 ^ 16

-- A setup packet whose fields fit sixteen bits is read back from its eight bytes as it was.
pub unpack-pack_setup_packet : (s : SetupPkt) → Fits s → unpack (pack_setup_packet s) ≡ s
unfolding pack_setup_packet
unpack-pack_setup_packet s f = ground arith
