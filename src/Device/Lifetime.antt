-- ===== src/Device/Lifetime.antt =====
-- src/usb3_device_controller.cpp: the device over any history of packets and loopback turns.
use usb3_otg.Base.{
  ◌^◌, ◌<◌, ◌≡◌, refl, sym, subst, Bool, true, false, ◌&&◌, Option, none, some, List, [], ◌∷◌,
  arith, if_both, ◌==◌, ap, ◌∙◌,
}
use usb3_otg.Types.{
  SetupPkt, PktType, PktExt, setup, bulk_out, ctrl_data, bulk_in, usb_req_set_configuration,
}
use usb3_otg.Types.Tlm.{Trans}
use usb3_otg.Device.{Device, Env, from_proto_b_transport, loopback_turn}
use usb3_otg.Device.Effects.{
  IsQuiet, setup_effect, effect, packet_effect, turn_effect, from_proto_effect,
  loopback_turn_effect,
}

-- The device's address is seven bits wide, its port shows the configured flag, and a buffer with
-- nothing to read is empty.
pub record IsValid (d : Device) : Type 0 where
  pub addr_fits : d.assigned_addr < 2 ^ 7
  pub port_shows : d.configured_port ≡ d.configured
  pub ep1_clear : d.ep1_in.has_data ≡ false → d.ep1_in.buffer ≡ []
  pub ep2_clear : d.ep2_out.has_data ≡ false → d.ep2_out.buffer ≡ []

setup_effect-IsValid : (s : SetupPkt) (d : Device) → IsValid d → IsValid (setup_effect s d)
setup_effect-IsValid s d v = ground arith

effect-IsValid :
    (ty : PktType) (ext : PktExt) (t : Trans) (d : Device) → IsValid d → IsValid (effect ty ext t d)
effect-IsValid setup ext t d v = setup_effect-IsValid ext.setup_pkt d v
effect-IsValid bulk_out ext t d v = ground arith
effect-IsValid ctrl_data ext t d v = ground arith
effect-IsValid bulk_in ext t d v = ground arith
effect-IsValid _ ext t d v = v

packet_effect-IsValid :
    (o : Option PktExt) (t : Trans) (d : Device) → IsValid d → IsValid (packet_effect o t d)
packet_effect-IsValid none t d v = v
packet_effect-IsValid (some ext) t d v = effect-IsValid ext.pkt_type ext t d v

turn_effect-IsValid : (d : Device) → IsValid d → IsValid (turn_effect d)
turn_effect-IsValid d v = ground arith

-- What can happen to the device: a packet from the protocol layer, and a turn of the thread.
pub data Event : Type 0 where
  receives : Trans → Event
  turns : Event

module _ {E : Type 0} (env : Env E) where
  unfoldable pub step : Event → Device × E → Device × E
  step (receives t) w = (from_proto_b_transport env t w).1
  step turns w = loopback_turn env w

  unfoldable pub run_events : List Event → Device × E → Device × E
  run_events [] w = w
  run_events (e ∷ es) w = run_events es (step e w)

module _ {E : Type 0} (env : Env E) (q : IsQuiet env) where
  step-IsValid : (e : Event) (w : Device × E) → IsValid w.0 → IsValid (step env e w).0
  unfolding step
  step-IsValid (receives t) w v =
      subst IsValid (sym (from_proto_effect env q t w))
        (if_both IsValid (env.enable w.1) (packet_effect-IsValid t.ext t w.0 v) v)
  step-IsValid turns w v =
      subst IsValid (sym (loopback_turn_effect env q w)) (turn_effect-IsValid w.0 v)

  -- Where nothing calls back into the device while it sends or waits, whatever packets come to a
  -- valid device and whenever its thread runs, the device stays valid: seven address bits, a port
  -- that shows the flag, and no stale bytes in a buffer that is read out.
  pub run_events-IsValid :
      (es : List Event) (w : Device × E) → IsValid w.0 → IsValid (run_events env es w).0
  unfolding run_events
  run_events-IsValid [] w v = v
  run_events-IsValid (e ∷ es) w v = run_events-IsValid es (step env e w) (step-IsValid e w v)

-- No packet of the history is a SET_CONFIGURATION.
abbrev is_setup : PktType → Bool
is_setup setup = true
is_setup _ = false

abbrev configures : Option PktExt → Bool
configures none = false
configures (some ext) = is_setup ext.pkt_type && ext.setup_pkt.request == usb_req_set_configuration

abbrev pub Configures : Event → Type 0
Configures (receives t) = configures t.ext ≡ true
Configures turns = ⊥

abbrev pub NoneConfigures : List Event → Type 0
NoneConfigures [] = Unit {0}
NoneConfigures (e ∷ es) = (¬ Configures e) × NoneConfigures es

effect_configured :
    (ty : PktType) (ext : PktExt) (t : Trans) (d : Device)
    → (d.configured ≡ true → (effect ty ext t d).configured ≡ true)
      × (is_setup ty && ext.setup_pkt.request == usb_req_set_configuration ≡ false
          → (effect ty ext t d).configured ≡ d.configured)
effect_configured setup ext t d = ground arith
effect_configured _ ext t d = (λ h. h, λ _. refl)

packet_configured :
    (o : Option PktExt) (t : Trans) (d : Device)
    → (d.configured ≡ true → (packet_effect o t d).configured ≡ true)
      × (configures o ≡ false → (packet_effect o t d).configured ≡ d.configured)
packet_configured none t d = (λ h. h, λ _. refl)
packet_configured (some ext) t d = effect_configured ext.pkt_type ext t d

turn_configured : (d : Device) → (turn_effect d).configured ≡ d.configured
turn_configured d = ground arith

-- How the flag of a device after a packet relates to that before it.
abbrev Goes : Option PktExt → Device → Device → Type 0
Goes o d d' =
    (d.configured ≡ true → d'.configured ≡ true)
    × (configures o ≡ false → d'.configured ≡ d.configured)

module _ {E : Type 0} (env : Env E) (q : IsQuiet env) where
  receive_configured : (t : Trans) (w : Device × E) → Goes t.ext w.0 (step env (receives t) w).0
  unfolding step
  receive_configured t w = subst (Goes t.ext w.0) (sym (from_proto_effect env q t w)) (
      if_both (Goes t.ext w.0) (env.enable w.1) (packet_configured t.ext t w.0) (λ h. h, λ _. refl))

  step_turn_configured : (w : Device × E) → (step env turns w).0.configured ≡ w.0.configured
  unfolding step
  step_turn_configured w =
      ap (λ (d : Device). d.configured) (loopback_turn_effect env q w) ∙ turn_configured w.0

  -- Where nothing calls back into the device while it sends or waits, a configured device stays
  -- so through any history of packets and turns, and a history without a SET_CONFIGURATION leaves
  -- the flag as it is.
  pub run_configured :
      (es : List Event) (w : Device × E)
      → (w.0.configured ≡ true → (run_events env es w).0.configured ≡ true)
        × (NoneConfigures es → (run_events env es w).0.configured ≡ w.0.configured)
  unfolding run_events
  run_configured [] w = (λ h. h, λ _. refl)
  run_configured (receives t ∷ es) w =
      let (once, never) = run_configured es (step env (receives t) w) in
      (
        λ h. once ((receive_configured t w).0 h),
        λ n. never n.1 ∙ (receive_configured t w).1 (ground (arith, n.0)),
      )
  run_configured (turns ∷ es) w =
      let (once, never) = run_configured es (step env turns w) in
      (λ h. once (step_turn_configured w ∙ h), λ n. never n.1 ∙ step_turn_configured w)
