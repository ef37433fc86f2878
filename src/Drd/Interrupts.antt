-- ===== src/Drd/Interrupts.antt =====
-- src/usb3_drd_controller.cpp, INTR_STATUS bit by bit: what sets a bit, and what clears it.
use usb3_otg.Base.{
  ℕ, ◌-◌, ◌^◌, ◌<◌, min, max, ◌≡◌, Bool, List, [], ◌∷◌, arith, bit, bit-le, bit-zero, complement,
  bit-bit_and, bit-bit_or, bit-complement, ltb, ◌==◌, if◌then◌else◌, get_le32, Bool-cases, inl, inr,
}
use usb3_otg.Types.Tlm.{Trans, Command, read_command, write_command, ignore_command, buffer}
use usb3_otg.Drd.Reg
use usb3_otg.Drd.{
  Drd, Signals, intr_role_changed, intr_enum_done, intr_xfer_done, intr_bulk_irq, raise_irq,
  collect_enum, collect_xfer, collect_bulk, interrupt_collector, align, access, write_reg,
  cfg_b_transport,
}

-- What happens to the interrupt state: a register access, a run of the collector, and the end of a
-- role switch.
pub data Event : Type 0 where
  accesses : Signals → Trans → Event
  collects : Signals → Event
  role_switched : Event

unfoldable pub step : Event → Drd → Drd
step (accesses s t) d = (cfg_b_transport s t 0 d).2
step (collects s) d = interrupt_collector s d
step role_switched d = raise_irq intr_role_changed d

-- The bits that software clears by an event, and the bits that hardware sets.
abbrev clears : Command → ℕ → ℕ → ℕ
clears read_command addr val = 0
clears write_command addr val = if addr == Reg.intr_status then val else 0
clears ignore_command addr val = if addr == Reg.intr_status then val else 0

unfoldable pub cleared : Event → ℕ
cleared (accesses s t) =
    if ltb t.data_length 4
    then 0
    else clears t.command (align t.address) (get_le32 (buffer t.data_ptr))
cleared (collects s) = 0
cleared role_switched = 0

abbrev pub is_raised : ℕ → Bool → ℕ → ℕ
is_raised i on bits = if on then bit i bits else 0

unfoldable pub raised : ℕ → Event → ℕ
raised i (accesses s t) = 0
raised i (collects s) =
    max (max (is_raised i s.enum_done intr_enum_done) (is_raised i s.xfer_done intr_xfer_done))
      (is_raised i s.bulk_irq intr_bulk_irq)
raised i role_switched = bit i intr_role_changed

pub raise_irq-bit :
    (i bits : ℕ) (d : Drd)
    → bit i (raise_irq bits d).intr_status ≡ max (bit i d.intr_status) (bit i bits)
unfolding raise_irq
raise_irq-bit i bits d = ground (arith, bit-bit_or i d.intr_status bits)

collect_enum-bit :
    (i : ℕ) (s : Signals) (d : Drd)
    → bit i (collect_enum s d).intr_status
      ≡ max (bit i d.intr_status) (is_raised i s.enum_done intr_enum_done)
unfolding collect_enum
collect_enum-bit i s d = ground (arith, raise_irq-bit i intr_enum_done d)

collect_xfer-bit :
    (i : ℕ) (s : Signals) (d : Drd)
    → bit i (collect_xfer s d).intr_status
      ≡ max (bit i d.intr_status) (is_raised i s.xfer_done intr_xfer_done)
unfolding collect_xfer
collect_xfer-bit i s d = ground (arith, raise_irq-bit i intr_xfer_done d)

collect_bulk-bit :
    (i : ℕ) (s : Signals) (d : Drd)
    → bit i (collect_bulk s d).intr_status
      ≡ max (bit i d.intr_status) (is_raised i s.bulk_irq intr_bulk_irq)
unfolding collect_bulk
collect_bulk-bit i s d = ground (arith, raise_irq-bit i intr_bulk_irq d)

write_reg-bit :
    (i addr val : ℕ) (d : Drd)
    → i < 32
    → (if addr == Reg.intr_status then val else 0) < 2 ^ 32
    → bit i (write_reg addr val d).intr_status
      ≡ min (bit i d.intr_status) (1 - bit i (if addr == Reg.intr_status then val else 0))
unfolding write_reg
write_reg-bit i addr val d h k = ground (
  arith,
  bit-le i d.intr_status,
  bit-zero i,
  bit-bit_and i d.intr_status (complement 32 val),
  bit-complement 32 i val h,
)

access-bit :
    (i : ℕ) (s : Signals) (c : Command) (addr : ℕ) (t : Trans) (d : Drd)
    → i < 32
    → clears c addr (get_le32 (buffer t.data_ptr)) < 2 ^ 32
    → bit i (access s c addr t 0 d).2.intr_status
      ≡ min (bit i d.intr_status) (1 - bit i (clears c addr (get_le32 (buffer t.data_ptr))))
unfolding access
access-bit i s read_command addr t d h k = ground (arith, bit-le i d.intr_status, bit-zero i)
access-bit i s write_command addr t d h k =
    write_reg-bit i addr (get_le32 (buffer t.data_ptr)) d h k
access-bit i s ignore_command addr t d h k =
    write_reg-bit i addr (get_le32 (buffer t.data_ptr)) d h k

pub cfg_effect :
    (s : Signals) (t : Trans) (d : Drd)
    → (cfg_b_transport s t 0 d).2
      ≡ (if ltb t.data_length 4 then d else (access s t.command (align t.address) t 0 d).2)
unfolding cfg_b_transport
cfg_effect s t d = ground arith

cfg-bit :
    (i : ℕ) (s : Signals) (t : Trans) (d : Drd)
    → i < 32
    → cleared (accesses s t) < 2 ^ 32
    → bit i (cfg_b_transport s t 0 d).2.intr_status
      ≡ min (bit i d.intr_status) (1 - bit i (cleared (accesses s t)))
unfolding cleared
cfg-bit i s t d h k = rw (cfg_effect s t d) (elim (Bool-cases (ltb t.data_length 4)) [
  | inl e ↦ rw e (omega (arith, bit-le i d.intr_status, bit-zero i))
  | inr e ↦ rw e (access-bit i s t.command (align t.address) t d h (rw (e, cleared) at k))
])

-- Each of the 32 bits of INTR_STATUS after an event, in which software writes a 32-bit value if
-- any, is what it was, less what software cleared by writing a one to it, and what hardware
-- raised: each of the four sources sets its own bit and no other.
pub step-bit :
    (i : ℕ) (e : Event) (d : Drd)
    → i < 32
    → cleared e < 2 ^ 32
    → bit i (step e d).intr_status
      ≡ max (min (bit i d.intr_status) (1 - bit i (cleared e))) (raised i e)
unfolding step cleared raised interrupt_collector
step-bit i (accesses s t) d h k =
    omega (arith, cfg-bit i s t d h k, bit-le i (cleared (accesses s t)))
step-bit i (collects s) d h k = omega (
  arith,
  collect_enum-bit i s d,
  collect_xfer-bit i s (collect_enum s d),
  collect_bulk-bit i s (collect_xfer s (collect_enum s d)),
  bit-le i d.intr_status,
  bit-zero i,
)
step-bit i role_switched d h k =
    omega (arith, raise_irq-bit i intr_role_changed d, bit-zero i, bit-le i d.intr_status)

-- The events of a run, and the interrupt state after them.
unfoldable pub run : List Event → Drd → Drd
run [] d = d
run (e ∷ es) d = run es (step e d)

-- No event of the run writes a one to bit `i` of INTR_STATUS.
abbrev pub NeverCleared : ℕ → List Event → Type 0
NeverCleared i [] = Unit {0}
NeverCleared i (e ∷ es) = (cleared e < 2 ^ 32) × (bit i (cleared e) ≡ 0) × NeverCleared i es

-- A pending interrupt stays pending through any run in which software does not clear it.
pub run_pending :
    (i : ℕ) (es : List Event) (d : Drd)
    → i < 32
    → NeverCleared i es
    → bit i d.intr_status ≡ 1
    → bit i (run es d).intr_status ≡ 1
unfolding run
run_pending i [] d h n p = p
run_pending i (e ∷ es) d h n p = run_pending i es (step e d) h n.2 set
  where
    set : bit i (step e d).intr_status ≡ 1
    set = omega (arith, step-bit i e d h n.0, bit-le i (step e d).intr_status)
