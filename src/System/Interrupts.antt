-- ===== src/System/Interrupts.antt =====
-- src/usb3_host_controller.cpp and src/usb3_drd_controller.cpp, the host's output ports and
-- `interrupt_collector`, which runs when one of them has changed: in each wait of the host's thread.
-- A run with none of them raised changes nothing.
use usb3_otg.Base.{
  ℕ, suc, ◌≡◌, refl, true, false, subst, sym, bit, max, get_or, length, length-set, arith, bit_or,
  bit-bit_and, bit-bit_or, bit-le, bit-zero, get_or-set_self, ◌/◌,
}
use usb3_otg.Types.{host}
use usb3_otg.Types.Tlm.{Status}
use usb3_otg.Host.{Host, Env}
use usb3_otg.Host.Enumerate.{enumerate_device}
use usb3_otg.Protocol
use usb3_otg.Peer
use usb3_otg.Drd.{Drd, Signals, interrupt_collector, collect_enum, raise_irq, intr_enum_done}
use usb3_otg.System.{System, host_env, to_link}
use usb3_otg.System.Quiet.{idle}
use usb3_otg.Drd.Reg
use usb3_otg.Drd.Interrupts.{raise_irq-bit}

-- The internal signals, while the host's thread waits with the host `h`.
abbrev pub signals : Host → System → Signals
signals h s = record {
  role = s.role;
  dev_addr = h.dev_addr_out;
  configured = s.device.configured_port;
  enum_done = h.enumeration_done;
  xfer_done = h.transfer_done;
  bulk_irq = s.device.bulk_irq;
}

-- The host's surroundings with the collector beside them.
abbrev pub irq_env : Status → ℕ → Env (System × Drd)
irq_env fresh depth = record {
  to_protocol = λ t (h, (s, d)).
      let (t', (h', s')) = (host_env fresh idle depth).to_protocol t (h, s) in (t', (h', (s', d)));
  enable = λ (s, d). s.host_enable;
  pause = λ n (h, (s, d)). (h, (record s { host = h }, interrupt_collector (signals h s) d));
  fresh = fresh;
}

-- In host mode, with no port raised.
abbrev pub calm : Host → Host
calm h = record h { transfer_done = false; enumeration_done = false }

abbrev pub in_host : System → System
in_host s = record s { role = host; device = record (s.device) { bulk_irq = false } }

module _ (fresh : Status) (depth : ℕ) where
  collected :
      (h : Host) (s : System) (d : Drd)
      → (enumerate_device (irq_env fresh (suc depth)) (calm h, (in_host s, d))).1.1
        ≡ collect_enum
            (record {
              role = host;
              dev_addr = h.next_addr;
              configured = s.device.configured_port;
              enum_done = true;
              xfer_done = false;
              bulk_irq = false;
            })
            d
  unfolding interrupt_collector enumerate_device usb3_otg.Host.get_descriptor
      usb3_otg.Host.set_address usb3_otg.Host.set_configuration usb3_otg.Host.ctrl_transfer
      usb3_otg.Host.setup_stage usb3_otg.Host.data_stage usb3_otg.Host.status_stage
      Protocol.host_b_transport to_link Peer.b_transport usb3_otg.System.upstream_b_transport
      Protocol.link_b_transport usb3_otg.System.to_host usb3_otg.Host.from_protocol_b_transport
      usb3_otg.Host.Enumerate.note_device usb3_otg.Host.Enumerate.note_config
  collected h s d = refl

-- What software finds after the enumeration with the host `h` and the interrupt state `d`.
pub record IsAnnounced (h : Host) (d d' : Drd) : Type 0 where
  pub status : (i : ℕ) → bit i d'.intr_status ≡ max (bit i d.intr_status) (bit i intr_enum_done)
  pub register : get_or d'.regs (Reg.dev_addr / 4) 0 ≡ h.next_addr
  pub line : bit 3 d.intr_enable ≡ 1 → d'.irq ≡ true

raise_irq-regs : (bits : ℕ) (d : Drd) → length (raise_irq bits d).regs ≡ length d.regs
unfolding raise_irq
raise_irq-regs bits d = ground (arith, length-set d.regs 3 (bit_or d.intr_status bits))

raised_line : (d : Drd) → bit 3 d.intr_enable ≡ 1 → (raise_irq intr_enum_done d).irq ≡ true
unfolding raise_irq
raised_line d e = ground (
  arith,
  bit-bit_and 3 (bit_or d.intr_status intr_enum_done) d.intr_enable,
  bit-bit_or 3 d.intr_status intr_enum_done,
  bit-le 3 d.intr_status,
  bit-zero 3,
)

module _ (fresh : Status) (depth : ℕ) where
  -- In host mode, with no port of the controllers raised before, eight shadow registers, and no other
  -- process in the host's waits: the enumeration of the peer sets the ENUM_DONE bit of the interrupt
  -- status and no other, leaves the new address in the DEV_ADDR register, and raises the interrupt
  -- line if the bit is enabled.
  pub enumerate_device-IsAnnounced :
      (h : Host) (s : System) (d : Drd)
      → length d.regs ≡ 8
      → IsAnnounced h d (enumerate_device (irq_env fresh (suc depth)) (calm h, (in_host s, d))).1.1
  unfolding collect_enum
  enumerate_device-IsAnnounced h s d n =
      subst (IsAnnounced h d) (sym (collected fresh depth h s d)) (record {
        status = λ i. raise_irq-bit i intr_enum_done d;
        register =
            get_or-set_self (raise_irq intr_enum_done d).regs 5 h.next_addr 0
              (omega (arith, raise_irq-regs intr_enum_done d, n));
        line = raised_line d;
      })
