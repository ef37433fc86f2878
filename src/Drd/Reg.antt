-- ===== src/Drd/Reg.antt =====
-- include/usb3_drd_controller.h, `usb3_drd_regs`: the register offsets.
use usb3_otg.Base.{ℕ}

abbrev pub ctrl : ℕ
ctrl = 0x00

abbrev pub status : ℕ
status = 0x04

abbrev pub role_ctrl : ℕ
role_ctrl = 0x08

abbrev pub intr_status : ℕ
intr_status = 0x0C

abbrev pub intr_enable : ℕ
intr_enable = 0x10

abbrev pub dev_addr : ℕ
dev_addr = 0x14

abbrev pub speed : ℕ
speed = 0x1C
