-- ===== src/Host/Enumerate.antt =====
-- src/usb3_host_controller.cpp, `enumerate_device`.
use usb3_otg.Base.{
  ℕ, ◌+◌, ◌*◌, ◌^◌, Bool, true, false, Option, none, some, List, [], length, get_or, u8, u16,
  bit_or, leb, if◌then◌else◌,
}
use usb3_otg.Types.{usb_desc_device, usb_desc_configuration, usb_desc_bos}
use usb3_otg.Host.{Host, Env, get_descriptor, set_address, set_configuration}

-- A part of the thread that may return early: `none` is the return.
abbrev pub M : Type 0 → Type 0 → Type 0
M E A = Host × E → Option A × (Host × E)

infixl 5 ◌>>=◌ ◌>>◌
abbrev pub ◌>>=◌ : {E A B : Type 0} → M E A → (A → M E B) → M E B
◌>>=◌ m f w = let (r, w') = m w in elim r [ none ↦ (none, w') | some a ↦ f a w' ]

abbrev pub ◌>>◌ : {E B : Type 0} → M E (Unit {0}) → M E B → M E B
m >> k = m >>= λ _. k

-- `if (!done) return;`.
abbrev pub unless_done : {E : Type 0} → Bool → M E (Unit {0})
unless_done true w = (some tt, w)
unless_done false w = (none, w)

abbrev pub modify : {E : Type 0} → (Host → Host) → M E (Unit {0})
modify f (h, e) = (some tt, (f h, e))

-- The fields that the host takes from a device descriptor of eighteen bytes or more.
unfoldable pub note_device : List ℕ → Host → Host
note_device buf h =
    if leb 18 (length buf)
    then record h {
      dev = record (h.dev) {
        vendor_id = u16 (bit_or (get_or buf 8 0) (get_or buf 9 0 * 2 ^ 8));
        product_id = u16 (bit_or (get_or buf 10 0) (get_or buf 11 0 * 2 ^ 8));
        num_configs = get_or buf 17 0;
      };
    }
    else h

unfoldable pub note_config : List ℕ → Host → Host
note_config buf h =
    if leb 9 (length buf)
    then record h { dev = record (h.dev) { active_config = get_or buf 5 0 } }
    else h

unfoldable pub note_address : ℕ → Host → Host
note_address addr h = record h { dev = record (h.dev) { addr = addr }; dev_addr_out = addr }

unfoldable pub note_enumerated : Host → Host
note_enumerated h = record h {
  dev = record (h.dev) { active_config = 1; enumerated = true };
  enumeration_done = true;
}

module _ {E : Type 0} (env : Env E) where
  open env use {pause}

  unfoldable pub dev_addr : M E ℕ
  dev_addr (h, e) = (some h.dev.addr, (h, e))

  unfoldable pub sleep : ℕ → M E (Unit {0})
  sleep n w = (some tt, pause n w)

  -- `m_next_addr++`.
  unfoldable pub take_addr : M E ℕ
  take_addr (h, e) = (some h.next_addr, (record h { next_addr = u8 (h.next_addr + 1) }, e))

  unfoldable pub read_desc : ℕ → ℕ → List ℕ → M E (Bool × List ℕ)
  read_desc dev_addr desc_type buf w =
      let (done, buf', w') = get_descriptor env dev_addr desc_type 0 buf w in
      (some (done, buf'), w')

  unfoldable pub assign : ℕ → ℕ → M E Bool
  assign old new w = let (done, w') = set_address env old new w in (some done, w')

  unfoldable pub configure : ℕ → M E Bool
  configure addr w = let (done, w') = set_configuration env addr 1 w in (some done, w')

  unfoldable pub enumerate : M E (Unit {0})
  unfolding dev_addr sleep take_addr read_desc assign configure note_address note_enumerated
  enumerate = do
    (got, buf) ← read_desc 0 usb_desc_device []
    unless_done got
    modify (note_device buf)
    addr ← take_addr
    moved ← assign 0 addr
    unless_done moved
    modify (note_address addr)
    sleep 2000000
    (got', buf') ← read_desc (← dev_addr) usb_desc_configuration buf
    unless_done got'
    modify (note_config buf')
    _ ← read_desc (← dev_addr) usb_desc_bos []
    set ← configure (← dev_addr)
    unless_done set
    modify note_enumerated
    sleep 10
    modify (λ h. record h { enumeration_done = false })

  unfoldable pub enumerate_device : Host × E → Host × E
  unfolding enumerate
  enumerate_device w = (enumerate w).1
