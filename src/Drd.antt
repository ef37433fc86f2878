-- ===== src/Drd.antt =====
-- include/usb3_drd_controller.h and src/usb3_drd_controller.cpp: the register file, the interrupt
-- line and the role switch of the top-level module. The blocks that it connects have modules of
-- their own; what their output signals show is the argument `Signals`.
pub mod Reg
pub mod Registers
pub mod Interrupts
pub mod Line
pub mod Monitor
mod Tests
use usb3_otg.Base.{
  ℕ, ◌+◌, ◌*◌, ◌/◌, ◌^◌, Bool, true, false, Option, none, some, List, [], ◌∷◌, ◌++◌, length, get_or,
  set, drop, bit_and, bit_or, complement, replicate, ltb, ◌==◌, if◌then◌else◌, get_le32, le32,
}
use usb3_otg.Types.{Role, host, device, role_code, speed_code, super_speed, CcState}
use usb3_otg.Types.Tlm.{
  Trans, Command, read_command, write_command, ignore_command, ok_response, generic_error_response,
  buffer, set_status,
}
use usb3_otg.RoleManager
use usb3_otg.RoleManager.{RoleManager, request_role}

abbrev pub intr_role_changed : ℕ
intr_role_changed = 2 ^ 0

abbrev pub intr_enum_done : ℕ
intr_enum_done = 2 ^ 3

abbrev pub intr_xfer_done : ℕ
intr_xfer_done = 2 ^ 4

abbrev pub intr_bulk_irq : ℕ
intr_bulk_irq = 2 ^ 5

-- The internal signals that the module reads.
pub record Signals : Type 0 where
  pub role : Role
  pub dev_addr : ℕ
  pub configured : Bool
  pub enum_done : Bool
  pub xfer_done : Bool
  pub bulk_irq : Bool

-- The members, the value last written to `irq`, the role manager that ROLE_CTRL writes to, and
-- whether its `m_role_request_event` has been notified.
pub record Drd : Type 0 where
  pub regs : List ℕ
  pub intr_enable : ℕ
  pub intr_status : ℕ
  pub irq : Bool
  pub role_mgr : RoleManager
  pub role_request : Bool

abbrev pub init : Drd
init = record {
  regs = replicate 8 0;
  intr_enable = 0xFFFFFFFF;
  intr_status = 0;
  irq = false;
  role_mgr = RoleManager.init;
  role_request = false;
}

unfoldable pub raise_irq : ℕ → Drd → Drd
raise_irq bits d =
    let pending = bit_or d.intr_status bits in
    if bit_and pending d.intr_enable == 0 then record d { intr_status = pending } else record d {
      intr_status = pending;
      irq = true;
      regs = set d.regs (Reg.intr_status / 4) pending;
    }

unfoldable pub collect_enum : Signals → Drd → Drd
collect_enum s d =
    if s.enum_done
    then (let d' = raise_irq intr_enum_done d in
        record d' { regs = set d'.regs (Reg.dev_addr / 4) s.dev_addr })
    else d

unfoldable pub collect_xfer : Signals → Drd → Drd
collect_xfer s d = if s.xfer_done then raise_irq intr_xfer_done d else d

unfoldable pub collect_bulk : Signals → Drd → Drd
collect_bulk s d = if s.bulk_irq then raise_irq intr_bulk_irq d else d

unfoldable pub interrupt_collector : Signals → Drd → Drd
unfolding collect_enum collect_xfer collect_bulk
interrupt_collector s d = collect_bulk s (collect_xfer s (collect_enum s d))

unfoldable pub build_status_reg : Signals → ℕ
build_status_reg s =
    bit_or
      (bit_or
        (bit_or (bit_or 0 (bit_and (role_code s.role) 0x03 * 2 ^ 4))
          (bit_and (speed_code super_speed) 0x07 * 2 ^ 8))
        (1 * 2 ^ 16))
      ((if s.configured then 1 else 0) * 2 ^ 17)

-- `trans.get_address() & ~3u`: the mask is 32 bits wide, the address 64.
unfoldable pub align : ℕ → ℕ
align address = bit_and address 0xFFFFFFFC

-- The `switch` of a read.
unfoldable pub read_reg : Signals → Drd → ℕ → ℕ
unfolding build_status_reg
read_reg s d addr =
    if addr == Reg.status
    then build_status_reg s
    else if addr == Reg.intr_status
    then d.intr_status
    else if addr == Reg.intr_enable
    then d.intr_enable
    else if addr == Reg.dev_addr
    then s.dev_addr
    else if addr == Reg.speed
    then speed_code super_speed
    else if ltb (addr / 4) 8
    then get_or d.regs (addr / 4) 0
    else 0

unfoldable pub write_role_ctrl : ℕ → Drd → Drd
write_role_ctrl val d =
    if val == 1
    then record d { role_mgr = request_role host d.role_mgr; role_request = true }
    else if val == 2
    then record d { role_mgr = request_role device d.role_mgr; role_request = true }
    else d

-- Write one to clear; the line falls when nothing is left.
unfoldable pub write_intr_status : ℕ → Drd → Drd
write_intr_status val d =
    let left = bit_and d.intr_status (complement 32 val) in
    if left == 0
    then record d { intr_status = left; irq = false }
    else record d { intr_status = left }

-- The `switch` of a write.
unfoldable pub write_reg : ℕ → ℕ → Drd → Drd
unfolding write_role_ctrl write_intr_status
write_reg addr val d =
    if addr == Reg.ctrl
    then d
    else if addr == Reg.role_ctrl
    then write_role_ctrl val d
    else if addr == Reg.intr_status
    then write_intr_status val d
    else if addr == Reg.intr_enable
    then record d { intr_enable = val }
    else if ltb (addr / 4) 8
    then record d { regs = set d.regs (addr / 4) val }
    else d

-- `memcpy(data, &val, 4)` into a buffer of at least four bytes.
abbrev pub store : ℕ → Option (List ℕ) → Option (List ℕ)
store val none = none
store val (some bytes) = some (le32 val ++ drop 4 bytes)

-- The transaction, its delay in nanoseconds and the module after a command of four bytes or more.
unfoldable pub access : Signals → Command → ℕ → Trans → ℕ → Drd → Trans × ℕ × Drd
unfolding read_reg write_reg
access s read_command addr trans delay d = (
  set_status ok_response (record trans { data_ptr = store (read_reg s d addr) trans.data_ptr }),
  delay + 10,
  d,
)
access s write_command addr trans delay d =
    (set_status ok_response trans, delay + 10, write_reg addr (get_le32 (buffer trans.data_ptr)) d)
access s ignore_command addr trans delay d =
    (set_status ok_response trans, delay + 10, write_reg addr (get_le32 (buffer trans.data_ptr)) d)

unfoldable pub cfg_b_transport : Signals → Trans → ℕ → Drd → Trans × ℕ × Drd
unfolding access align
cfg_b_transport s trans delay d =
    if ltb trans.data_length 4
    then (set_status generic_error_response trans, delay, d)
    else access s trans.command (align trans.address) trans delay d
