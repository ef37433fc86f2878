-- ===== src/Drd/Line.antt =====
-- src/usb3_drd_controller.cpp, the `irq` output, and the ranges of the interrupt registers.
use usb3_otg.Base.{
  ℕ, ◌^◌, ◌<◌, ◌≡◌, ◌≢◌, refl, true, false, List, [], ◌∷◌, arith, bit_and, bit_or, complement,
  bit_and-zero_left, bit_and-lt, bit_or-lt, length, length-set, ltb, get_le32, ◌/◌, Bool-cases, inl,
  inr, le-bit_or,
}
use usb3_otg.Types.Tlm.{Trans, Command, read_command, write_command, ignore_command, buffer}
use usb3_otg.Drd.Reg
use usb3_otg.Drd.{
  Drd, Signals, intr_role_changed, intr_enum_done, intr_xfer_done, intr_bulk_irq, raise_irq,
  collect_enum, collect_xfer, collect_bulk, interrupt_collector, align, access, write_reg,
  cfg_b_transport,
}
use usb3_otg.Drd.Interrupts.{Event, accesses, collects, role_switched, step, run, cfg_effect}

-- The registers hold 32-bit values, and the line is up only while an interrupt is pending.
pub record IsValid (d : Drd) : Type 0 where
  pub regs_fit : length d.regs ≡ 8
  pub status_fits : d.intr_status < 2 ^ 32
  pub enable_fits : d.intr_enable < 2 ^ 32
  pub line_pending : d.irq ≡ true → d.intr_status ≢ 0

-- The bytes of the value that an access writes are bytes.
abbrev pub IsWord : Event → Type 0
IsWord (accesses s t) = get_le32 (buffer t.data_ptr) < 2 ^ 32
IsWord (collects s) = Unit {0}
IsWord role_switched = Unit {0}

raise_irq-IsValid : (bits : ℕ) (d : Drd) → bits < 2 ^ 32 → IsValid d → IsValid (raise_irq bits d)
unfolding raise_irq
raise_irq-IsValid bits d h v = ground (
  arith,
  length-set d.regs 3 (bit_or d.intr_status bits),
  bit_or-lt 32 d.intr_status bits,
  bit_and-zero_left d.intr_enable,
  le-bit_or d.intr_status bits,
)

collect_enum-IsValid : (s : Signals) (d : Drd) → IsValid d → IsValid (collect_enum s d)
unfolding collect_enum
collect_enum-IsValid s d v = ground (
  arith,
  raise_irq-IsValid intr_enum_done d (omega arith) v,
  length-set (raise_irq intr_enum_done d).regs 5 s.dev_addr,
)

collect_xfer-IsValid : (s : Signals) (d : Drd) → IsValid d → IsValid (collect_xfer s d)
unfolding collect_xfer
collect_xfer-IsValid s d v = ground (arith, raise_irq-IsValid intr_xfer_done d (omega arith) v)

collect_bulk-IsValid : (s : Signals) (d : Drd) → IsValid d → IsValid (collect_bulk s d)
unfolding collect_bulk
collect_bulk-IsValid s d v = ground (arith, raise_irq-IsValid intr_bulk_irq d (omega arith) v)

write_reg-IsValid :
    (addr val : ℕ) (d : Drd) → val < 2 ^ 32 → IsValid d → IsValid (write_reg addr val d)
unfolding write_reg
write_reg-IsValid addr val d h v =
    ground
      (arith, length-set d.regs (addr / 4) val, bit_and-lt 32 d.intr_status (complement 32 val))

access-IsValid :
    (s : Signals) (c : Command) (addr : ℕ) (t : Trans) (d : Drd)
    → get_le32 (buffer t.data_ptr) < 2 ^ 32
    → IsValid d
    → IsValid (access s c addr t 0 d).2
unfolding access
access-IsValid s read_command addr t d h v = v
access-IsValid s write_command addr t d h v = write_reg-IsValid addr _ d h v
access-IsValid s ignore_command addr t d h v = write_reg-IsValid addr _ d h v

cfg-IsValid :
    (s : Signals) (t : Trans) (d : Drd)
    → get_le32 (buffer t.data_ptr) < 2 ^ 32
    → IsValid d
    → IsValid (cfg_b_transport s t 0 d).2
cfg-IsValid s t d h v = rw (cfg_effect s t d) (elim (Bool-cases (ltb t.data_length 4)) [
  | inl e ↦ rw e v
  | inr e ↦ rw e (access-IsValid s t.command (align t.address) t d h v)
])

-- Every register access, collector run and role switch keeps the registers in range and the line
-- down unless an interrupt is pending.
pub step-IsValid : (e : Event) (d : Drd) → IsWord e → IsValid d → IsValid (step e d)
unfolding step interrupt_collector
step-IsValid (accesses s t) d h v = cfg-IsValid s t d h v
step-IsValid (collects s) d h v =
    collect_bulk-IsValid s _ (collect_xfer-IsValid s _ (collect_enum-IsValid s d v))
step-IsValid role_switched d h v = raise_irq-IsValid intr_role_changed d (omega arith) v

abbrev pub AllWords : List Event → Type 0
AllWords [] = Unit {0}
AllWords (e ∷ es) = IsWord e × AllWords es

-- After any run of register accesses, which write 32-bit values, collector runs and role switches
-- from a valid state, the registers keep their number, both interrupt words their 32 bits, and a
-- line that is up has a pending interrupt behind it.
pub run-IsValid : (es : List Event) (d : Drd) → AllWords es → IsValid d → IsValid (run es d)
unfolding run
run-IsValid [] d h v = v
run-IsValid (e ∷ es) d h v = run-IsValid es (step e d) h.1 (step-IsValid e d h.0 v)

-- The level that the mask and the pending bits call for.
abbrev pub Due : Drd → Type 0
Due d = bit_and d.intr_status d.intr_enable ≢ 0

-- An interrupt that is enabled when it is raised brings the line up.
pub raise_irq-up :
    (bits : ℕ) (d : Drd)
    → bit_and (bit_or d.intr_status bits) d.intr_enable ≢ 0
    → (raise_irq bits d).irq ≡ true
unfolding raise_irq
raise_irq-up bits d h = ground arith

-- A write to INTR_ENABLE leaves the line as it is. So it stays up when the mask hides all that is
-- pending, and it stays down when the mask shows what is pending: the line is not the level that the
-- mask and the pending bits call for.
pub intr_enable_stale :
    (val : ℕ) (d : Drd)
    → let d' = write_reg Reg.intr_enable val d in
      (d'.irq ≡ d.irq)
      × (bit_and d.intr_status val ≡ 0 → d.irq ≡ true → (d'.irq ≡ true) × (¬ Due d'))
      × (bit_and d.intr_status val ≢ 0 → d.irq ≡ false → (d'.irq ≡ false) × Due d')
unfolding write_reg
intr_enable_stale val d = (refl, λ e p. (p, λ n. n e), λ n p. (p, n))
