-- ===== src/Drd/Registers.antt =====
-- src/usb3_drd_controller.cpp, `cfg_b_transport`: the register file as its user sees it.
use usb3_otg.Base.{
  ℕ, zero, suc, ◌+◌, ◌*◌, ◌/◌, ◌%◌, ◌^◌, ◌≤◌, ◌<◌, ◌≡◌, ap, sym, List, arith, length, get_or, set,
  bit_and, complement, ◌==◌, if◌then◌else◌, bit_and-align, get_or-set_self, get_or-set_ne,
  Bool-cases, inl, inr, ==_iff, get_le32-le32, [], some, none, le32,
}
use usb3_otg.Types.Tlm.{
  Trans, ok_response, incomplete_response, generic_error_response, set_status, Command,
  write_command, read_command,
}
use usb3_otg.Drd.Reg
use usb3_otg.Drd.{Drd, Signals, read_reg, write_reg, cfg_b_transport, align}

-- What a register holds after a write, by its address. Only INTR_STATUS, INTR_ENABLE and the
-- unnamed register at 0x18 take a write that a read shows.
abbrev pub written : ℕ → ℕ → Signals → Drd → ℕ
written addr val s d =
    if addr == Reg.intr_status
    then bit_and d.intr_status (complement 32 val)
    else if addr == Reg.intr_enable
    then val
    else if addr == 0x18
    then val
    else read_reg s d addr

get_or-set :
    (regs : List ℕ) (i j v : ℕ)
    → length regs ≡ 8
    → i < 8
    → get_or (set regs i v) j 0 ≡ (if i == j then v else get_or regs j 0)
get_or-set regs i j v h p = ground (arith, get_or-set_self regs i v 0, get_or-set_ne regs i j v 0)

-- The registers by their index.
abbrev ReadsBack : Signals → Drd → ℕ → ℕ → ℕ → Type 0
ReadsBack s d i j val =
    read_reg s (write_reg (4 * i) val d) (4 * j)
    ≡ (if 4 * i == 4 * j then written (4 * i) val s d else read_reg s d (4 * j))

write_past : (d : Drd) (i val : ℕ) → 8 ≤ i → write_reg (4 * i) val d ≡ d
unfolding write_reg
write_past d i val h = ground arith

written_past :
    (s : Signals) (d : Drd) (i val : ℕ) → 8 ≤ i → written (4 * i) val s d ≡ read_reg s d (4 * i)
written_past s d i val h = ground arith

same_or_not : (f : ℕ → ℕ) (a b : ℕ) → f b ≡ (if a == b then f a else f b)
same_or_not f a b = elim (Bool-cases (a == b)) [
  | inl e ↦ rw e (ap f (sym ((==_iff a b).0 e)))
  | inr n ↦ rw n
]

ReadsBack-past : (s : Signals) (d : Drd) (i j val : ℕ) → 8 ≤ i → ReadsBack s d i j val
ReadsBack-past s d i j val h =
    rw (write_past d i val h, written_past s d i val h) (same_or_not (read_reg s d) (4 * i) (4 * j))

reads_back : (s : Signals) (d : Drd) (i j val : ℕ) → length d.regs ≡ 8 → ReadsBack s d i j val
unfolding read_reg write_reg
reads_back s d zero j val h = ground arith
reads_back s d (suc zero) j val h = ground (arith, get_or-set d.regs 1 j val)
reads_back s d (suc (suc zero)) j val h = ground arith
reads_back s d (suc (suc (suc zero))) j val h = ground arith
reads_back s d (suc (suc (suc (suc zero)))) j val h = ground arith
reads_back s d (suc (suc (suc (suc (suc zero))))) j val h =
    ground (arith, get_or-set d.regs 5 j val)
reads_back s d (suc (suc (suc (suc (suc (suc zero)))))) j val h =
    ground (arith, get_or-set d.regs 6 j val)
reads_back s d (suc (suc (suc (suc (suc (suc (suc zero))))))) j val h =
    ground (arith, get_or-set d.regs 7 j val)
reads_back s d (suc (suc (suc (suc (suc (suc (suc (suc i)))))))) j val h =
    ReadsBack-past s d _ j val (omega arith)

-- A transaction of fewer than four bytes is refused and changes nothing; any other is answered with
-- success after ten nanoseconds.
pub cfg_b_transport-status :
    (s : Signals) (t : Trans) (delay : ℕ) (d : Drd)
    → let (t', delay', d') = cfg_b_transport s t delay d in
      (t.data_length < 4 → (t' ≡ set_status generic_error_response t) × (delay' ≡ delay) × (d' ≡ d))
      × (4 ≤ t.data_length → (t'.status ≡ ok_response) × (delay' ≡ delay + 10))
unfolding cfg_b_transport
cfg_b_transport-status s t delay d = ground arith

-- The register file decodes bits 2 to 31 of the address and no others: two addresses that agree
-- there have the same effect on the module and return the same bytes.
pub cfg_b_transport-alias :
    (s : Signals) (t : Trans) (a b delay : ℕ) (d : Drd)
    → a % 2 ^ 32 / 4 ≡ b % 2 ^ 32 / 4
    → let (ta, _, da) = cfg_b_transport s (record t { address = a }) delay d in
      let (tb, _, db) = cfg_b_transport s (record t { address = b }) delay d in
      (da ≡ db) × (ta.data_ptr ≡ tb.data_ptr) × (ta.status ≡ tb.status)
unfolding cfg_b_transport
cfg_b_transport-alias s t a b delay d h =
    let e : bit_and a 0xFFFFFFFC ≡ bit_and b 0xFFFFFFFC =
      omega (arith, bit_and-align a, bit_and-align b) in
    rw (e, cfg_b_transport) (ground arith)

-- A four-byte register access, as software builds it.
abbrev pub reg_access : Command → ℕ → ℕ → Trans
reg_access c addr val = record {
  command = c;
  address = addr;
  data_ptr = some (le32 val);
  data_length = 4;
  ext = none;
  status = incomplete_response;
}

align_multiple : (i : ℕ) → i < 2 ^ 30 → align (4 * i) ≡ 4 * i
unfolding align
align_multiple i h = omega (arith, bit_and-align (4 * i))

cfg_write :
    (s : Signals) (d : Drd) (i val delay : ℕ)
    → i < 2 ^ 30
    → val < 2 ^ 32
    → (cfg_b_transport s (reg_access write_command (4 * i) val) delay d).2 ≡ write_reg (4 * i) val d
unfolding cfg_b_transport
cfg_write s d i val delay h k = rw (align_multiple i h, get_le32-le32 val [] k)

cfg_read :
    (s : Signals) (d : Drd) (j any delay : ℕ)
    → j < 2 ^ 30
    → (cfg_b_transport s (reg_access read_command (4 * j) any) delay d).0.data_ptr
      ≡ some (le32 (read_reg s d (4 * j)))
unfolding cfg_b_transport
cfg_read s d j any delay h = rw (align_multiple j h)

-- With eight shadow registers, software that writes a 32-bit value to a register and then reads
-- one, each with four bytes at an aligned 32-bit address, gets the bytes of the new value where
-- it reads the register that it wrote, and that register takes a write; and otherwise the bytes
-- of the value that the register had.
pub read_after_write :
    (s : Signals) (d : Drd) (i j val any delay : ℕ)
    → length d.regs ≡ 8
    → i < 2 ^ 30
    → j < 2 ^ 30
    → val < 2 ^ 32
    → let d' = (cfg_b_transport s (reg_access write_command (4 * i) val) delay d).2 in
      (cfg_b_transport s (reg_access read_command (4 * j) any) delay d').0.data_ptr
      ≡ some (le32 (if 4 * i == 4 * j then written (4 * i) val s d else read_reg s d (4 * j)))
read_after_write s d i j val any delay h p q k =
    rw (cfg_write s d i val delay p k, cfg_read s (write_reg (4 * i) val d) j any delay q)
      (ap (λ (n : ℕ). some (le32 n)) (reads_back s d i j val h))
