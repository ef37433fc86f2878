-- ===== src/Drd/Tests.antt =====
-- The top-level module's theorems and definitions at concrete inputs.
use usb3_otg.Base.{
  ◌*◌, ◌^◌, ◌≡◌, refl, Bool, true, false, some, List, [], ◌∷◌, arith, bit, le32, replicate, ◌+◌,
}
use usb3_otg.Types.{host, device}
use usb3_otg.Types.Tlm.{read_command, write_command}
use usb3_otg.RoleManager.{init}
use usb3_otg.Drd.Reg
use usb3_otg.Drd.{
  Drd, Signals, intr_role_changed, intr_enum_done, raise_irq, cfg_b_transport, build_status_reg,
  read_reg, write_reg, align,
}
use usb3_otg.Drd.Registers.{
  reg_access, read_after_write, cfg_b_transport-status, cfg_b_transport-alias,
}
use usb3_otg.Drd.Interrupts.{
  Event, accesses, collects, step, run, cleared, raised, step-bit, run_pending,
}
use usb3_otg.Drd.Line.{IsValid, Due, run-IsValid, intr_enable_stale, raise_irq-up}
use usb3_otg.Drd.Monitor.{
  Switch, boot, change, see, settle, Reach, here, next, on_settled, IsExclusive, Serves, after_two,
  Reach-IsExclusive, rest-Serves, change_missed, on_edge,
}

-- The module after its constructor.
abbrev fresh : Drd
fresh = record {
  regs = replicate 8 0;
  intr_enable = 0xFFFFFFFF;
  intr_status = 0;
  irq = false;
  role_mgr = init;
  role_request = false;
}

abbrev busy : Drd
busy = record fresh { intr_status = 0x11; irq = true }

abbrev quiet : Signals
quiet = record {
  role = device;
  dev_addr = 1;
  configured = true;
  enum_done = false;
  xfer_done = false;
  bulk_irq = false;
}

abbrev enumerated : Signals
enumerated = record quiet { role = host; enum_done = true }

status_value : build_status_reg quiet ≡ 0x30320
unfolding build_status_reg
status_value = refl

read_after_write_example :
    let d = (cfg_b_transport quiet (reg_access write_command (4 * 4) 5) 0 fresh).2 in
    (cfg_b_transport quiet (reg_access read_command (4 * 4) 0) 0 d).0.data_ptr ≡ some (le32 5)
read_after_write_example =
    read_after_write quiet fresh 4 4 5 0 0 refl (omega arith) (omega arith) (omega arith)

access_status :
    (cfg_b_transport quiet (record (reg_access write_command 4 7) { data_length = 2 }) 0 fresh).2
    ≡ fresh
access_status =
    ((cfg_b_transport-status quiet (record (reg_access write_command 4 7) { data_length = 2 }) 0
        fresh).0
      (omega arith)).2

far_address_reaches :
    (cfg_b_transport quiet (reg_access write_command (2 ^ 32 + 0x10) 5) 0 fresh).2
    ≡ (cfg_b_transport quiet (reg_access write_command 0x10 5) 0 fresh).2
far_address_reaches =
    (cfg_b_transport-alias quiet (reg_access write_command 0 5) (2 ^ 32 + 0x10) 0x10 0 fresh
      (omega arith)).0

collected : (step (collects enumerated) fresh).intr_status ≡ 8
unfolding step raise_irq usb3_otg.Drd.interrupt_collector
collected = refl

step-bit_example : bit 3 (step (collects enumerated) fresh).intr_status ≡ 1
unfolding cleared raised
step-bit_example = step-bit 3 (collects enumerated) fresh (omega arith) (omega arith)

-- Software clears bit 4 and reads the status; bit 0 stays.
abbrev session : List Event
session =
    accesses quiet (reg_access write_command 0x0C 0x10)
    ∷ accesses quiet (reg_access read_command 0x0C 0)
    ∷ []

session_leaves_role_bit : bit 0 (run session busy).intr_status ≡ 1
unfolding cleared align
session_leaves_role_bit = run_pending 0 session busy (omega arith) (omega arith) refl

session_clears : (run session busy).intr_status ≡ 1
unfolding run step cfg_b_transport
session_clears = refl

fresh-IsValid : IsValid fresh
fresh-IsValid = record {
  regs_fit = refl;
  status_fits = omega arith;
  enable_fits = omega arith;
  line_pending = λ e. cc;
}

session-IsValid : IsValid (run session fresh)
session-IsValid = run-IsValid session fresh (omega arith) fresh-IsValid

raise_irq-up_example : (raise_irq intr_enum_done fresh).irq ≡ true
raise_irq-up_example = raise_irq-up intr_enum_done fresh (omega arith)

mask_leaves_line : ¬ Due (write_reg Reg.intr_enable 0 busy)
mask_leaves_line = ((intr_enable_stale 0 busy).1 refl refl).1

abbrev to_host : Switch
to_host = record boot { role = host; edge = true }

abbrev hosting : Switch × Drd
hosting = (record boot { host_enable = true; role = host }, raise_irq intr_role_changed fresh)

Reach-hosting : (m : Bool) → Reach m (boot, fresh) hosting
unfolding on_edge on_settled
Reach-hosting m =
    next (next (next here (change boot fresh host (λ e. cc))) (see to_host fresh refl refl))
      (settle _ fresh host refl refl)

Reach-IsExclusive_example : IsExclusive hosting.0
Reach-IsExclusive_example = Reach-IsExclusive (Reach-hosting true)

rest-Serves_example : hosting.0.host_enable ≡ true
rest-Serves_example = (rest-Serves (Reach-hosting false) refl refl).2 refl

change_missed_example : ¬ Serves (after_two host device (boot, fresh)).0
change_missed_example = (change_missed boot fresh host device refl (λ e. cc) (λ e. cc)).4
