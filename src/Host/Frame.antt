-- ===== src/Host/Frame.antt =====
-- src/usb3_host_controller.cpp: the enumeration leaves alone whatever depends on the transfer ring and
-- the rest of the system only, where its control packets and its waits do.
use usb3_otg.Base.{ℕ, ◌≡◌, refl, ◌∙◌, Bool, true, false, Option, none, some, List, [], arith}
use usb3_otg.Types.{SetupPkt, usb_desc_device, usb_desc_configuration, usb_desc_bos}
use usb3_otg.Host.{
  Host, Env, setup_stage, read_response, send_data, data_stage, status_stage, ctrl_transfer,
  get_descriptor, set_address, set_configuration,
}
use usb3_otg.Host.Enumerate.{
  M, ◌>>=◌, ◌>>◌, unless_done, modify, note_device, note_config, note_address, note_enumerated,
  dev_addr, sleep, take_addr, read_desc, assign, configure, enumerate, enumerate_device,
}
use usb3_otg.Host.Ring.{Trb}
use usb3_otg.Host.Logged.{is_bulk}
use usb3_otg.Types.Tlm.{Trans}

-- What is seen of the ring and of the rest of the system.
abbrev pub seen : {E A : Type 0} → (List Trb → E → A) → Host × E → A
seen view w = view w.0.transfer_ring w.1

pub record Keeps {E A : Type 0} (view : List Trb → E → A) (env : Env E) : Type 0 where
  pub sends :
      (t : Trans) (w : Host × E)
      → is_bulk t ≡ false
      → seen view (env.to_protocol t w).1 ≡ seen view w
  pub pauses : (n : ℕ) (w : Host × E) → seen view (env.pause n w) ≡ seen view w

-- A part of the thread that leaves it as it is.
record Same {E A B : Type 0} (view : List Trb → E → A) (m : M E B) : Type 0 where
  same : (w : Host × E) → seen view (m w).1 ≡ seen view w

module _ {E V : Type 0} (view : List Trb → E → V) where
  bind-Same :
      {A B : Type 0} (m : M E A) (f : A → M E B)
      → Same view m
      → ((a : A) → Same view (f a))
      → Same view (m >>= f)
  bind-Same {A} {B} m f p q = record { same = λ w. go w (m w).0 (m w).1 (p.same w) }
    where
      go :
          (w : Host × E) (r : Option A) (v : Host × E)
          → seen view v ≡ seen view w
          → seen view (◌>>=◌ {E = E} {A = A} {B = B} (λ _. (r, v)) f w).1 ≡ seen view w
      go w none v h = h
      go w (some a) v h = (q a).same v ∙ h

  unless_done-Same : (b : Bool) → Same view (unless_done b)
  unless_done-Same true = record { same = λ w. refl }
  unless_done-Same false = record { same = λ w. refl }

module _ {E V : Type 0} (view : List Trb → E → V) (env : Env E) (k : Keeps view env) where
  setup_same :
      (addr : ℕ) (s : SetupPkt) (w : Host × E) → seen view (setup_stage env addr s w) ≡ seen view w
  unfolding setup_stage
  setup_same addr s w = k.pauses 5000 _ ∙ k.sends _ w refl

  send_same :
      (addr : ℕ) (s : SetupPkt) (buf : List ℕ) (w : Host × E)
      → seen view (send_data env addr s buf w) ≡ seen view w
  unfolding send_data
  send_same addr s buf w = k.pauses 5000 _ ∙ k.sends _ w refl

  read_same : (buf : List ℕ) (w : Host × E) → seen view (read_response env buf w).1 ≡ seen view w
  unfolding read_response
  read_same buf w = ground arith

  data_same :
      (addr : ℕ) (s : SetupPkt) (buf : List ℕ) (out : Bool) (w : Host × E)
      → seen view (data_stage env addr s buf out w).1 ≡ seen view w
  unfolding data_stage
  data_same addr s buf out w = ground (arith, send_same addr s buf w, read_same buf w)

  status_same :
      (addr : ℕ) (out : Bool) (w : Host × E)
      → seen view (status_stage env addr out w).1 ≡ seen view w
  unfolding status_stage
  status_same addr out w = k.pauses 2000 _ ∙ k.sends _ w refl

  ctrl_same :
      (addr : ℕ) (s : SetupPkt) (buf : List ℕ) (out : Bool) (w : Host × E)
      → seen view (ctrl_transfer env addr s buf out w).2 ≡ seen view w
  unfolding ctrl_transfer
  ctrl_same addr s buf out w =
      status_same addr out _ ∙ data_same addr s buf out _ ∙ setup_same addr s w

  read_desc-Same : (addr type : ℕ) (buf : List ℕ) → Same view (read_desc env addr type buf)
  unfolding read_desc get_descriptor
  read_desc-Same addr type buf = record { same = λ w. ctrl_same addr _ buf false w }

  assign-Same : (old new : ℕ) → Same view (assign env old new)
  unfolding assign set_address
  assign-Same old new = record { same = λ w. ctrl_same old _ [] true w }

  configure-Same : (addr : ℕ) → Same view (configure env addr)
  unfolding configure set_configuration
  configure-Same addr = record { same = λ w. ctrl_same addr _ [] true w }

  sleep-Same : (n : ℕ) → Same view (sleep env n)
  unfolding sleep
  sleep-Same n = record { same = λ w. k.pauses n w }

  take_addr-Same : Same view (take_addr env)
  unfolding take_addr
  take_addr-Same = record { same = λ w. refl }

  dev_addr-Same : Same view (dev_addr env)
  unfolding dev_addr
  dev_addr-Same = record { same = λ w. refl }

  note_device-Same : (buf : List ℕ) → Same view (modify (note_device buf))
  unfolding note_device
  note_device-Same buf = record { same = λ w. ground arith }

  note_config-Same : (buf : List ℕ) → Same view (modify (note_config buf))
  unfolding note_config
  note_config-Same buf = record { same = λ w. ground arith }

  note_address-Same : (addr : ℕ) → Same view (modify (note_address addr))
  unfolding note_address
  note_address-Same addr = record { same = λ w. refl }

  note_enumerated-Same : Same view (modify note_enumerated)
  unfolding note_enumerated
  note_enumerated-Same = record { same = λ w. refl }

  lower-Same : Same view (modify (λ h. record h { enumeration_done = false }))
  lower-Same = record { same = λ w. refl }

  -- The part after the settle time.
  settled-Same :
      (buf : List ℕ)
      → Same view (do
        (got', buf') ← read_desc env (← dev_addr env) usb_desc_configuration buf
        unless_done got'
        modify (note_config buf')
        _ ← read_desc env (← dev_addr env) usb_desc_bos []
        set ← configure env (← dev_addr env)
        unless_done set
        modify note_enumerated
        sleep env 10
        modify (λ h. record h { enumeration_done = false }))
  settled-Same buf = bind-Same view _ _ dev_addr-Same (λ a.
      bind-Same view _ _ (read_desc-Same a usb_desc_configuration buf) (λ (got, buf').
        bind-Same view _ _ (unless_done-Same view got) (λ _.
          bind-Same view _ _ (note_config-Same buf') (λ _. bind-Same view _ _ dev_addr-Same (λ b.
            bind-Same view _ _ (read_desc-Same b usb_desc_bos []) (λ _.
              bind-Same view _ _ dev_addr-Same (λ c. bind-Same view _ _ (configure-Same c) (λ set.
                bind-Same view _ _ (unless_done-Same view set) (λ _.
                  bind-Same view _ _ note_enumerated-Same
                    (λ _. bind-Same view _ _ (sleep-Same 10) (λ _. lower-Same)))))))))))

  enumerate-Same : Same view (enumerate env)
  unfolding enumerate
  enumerate-Same = bind-Same view _ _ (read_desc-Same 0 usb_desc_device []) (λ (got, buf).
      bind-Same view _ _ (unless_done-Same view got) (λ _.
        bind-Same view _ _ (note_device-Same buf) (λ _. bind-Same view _ _ take_addr-Same (λ addr.
          bind-Same view _ _ (assign-Same 0 addr) (λ moved.
            bind-Same view _ _ (unless_done-Same view moved) (λ _.
              bind-Same view _ _ (note_address-Same addr)
                (λ _. bind-Same view _ _ (sleep-Same 2000000) (λ _. settled-Same buf))))))))

  pub enumerate_device-same : (w : Host × E) → seen view (enumerate_device env w) ≡ seen view w
  unfolding enumerate_device
  enumerate_device-same w = enumerate-Same.same w
