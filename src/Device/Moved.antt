-- ===== src/Device/Moved.antt =====
-- src/usb3_device_controller.cpp, what `loopback_process` moves in a run in which no notification is
-- dropped.
use usb3_otg.Base.{
  ℕ, ◌≡◌, Bool, true, false, Option, none, some, List, [], arith, if◌then◌else◌, subst, sym,
  Bool-cases, inl, inr,
}
use usb3_otg.Types.{PktType, PktExt, setup, bulk_out, ctrl_data, bulk_in, SetupPkt}
use usb3_otg.Types.Tlm.{Trans, payload}
use usb3_otg.Device.{Device, Env, from_proto_b_transport}
use usb3_otg.Device.Effects.{setup_effect, effect, packet_effect, IsQuiet, from_proto_effect}
use usb3_otg.Device.Thread.{
  Net, Step, receive, outside, wake, drop, pulse_over, Reach, here, next, end_turn, for_pulse,
  Waiting, for_event,
}
use usb3_otg.Device.Turn.{begun, Shows, begin_turn_effect, begin_turn-Shows}

-- The bytes that a packet brings, or those of the last one before it.
abbrev brought : PktType → Trans → List ℕ → List ℕ
brought bulk_out t old = payload t
brought ctrl_data t old = payload t
brought _ t old = old

abbrev brings : Option PktExt → Trans → List ℕ → List ℕ
brings none t old = old
brings (some ext) t old = brought ext.pkt_type t old

-- The bytes of the last packet with data that came to the enabled device in a run.
abbrev step_bytes :
    {E : Type 0} {env : Env E} {drops : Bool} {s u : Net E} → Step env drops s u → List ℕ → List ℕ
step_bytes {env = env} (receive s t) old = if env.enable s.outside then brings t.ext t old else old
step_bytes (outside s e) old = old
step_bytes (wake s p w) old = old
step_bytes (drop s c p w) old = old
step_bytes (pulse_over s p w) old = old

unfoldable pub last_bytes :
    {E : Type 0} {env : Env E} {drops : Bool} {s u : Net E} → Reach env drops s u → List ℕ
last_bytes here = []
last_bytes (next r st) = step_bytes st (last_bytes r)

-- The configured device holds no bytes but the last that came, and holds none in endpoint 2 without
-- an event.
record Holds (bytes : List ℕ) (d : Device) : Type 0 where
  configured : d.configured ≡ true
  in_ep2 : d.ep2_out.has_data ≡ true → d.ep2_out.buffer ≡ bytes
  in_ep1 : d.ep1_in.has_data ≡ true → d.ep2_out.has_data ≡ false → d.ep1_in.buffer ≡ bytes
  woken : d.ep2_out.has_data ≡ true → d.out_ep_event ≡ true

setup_effect-Holds :
    (bytes : List ℕ) (s : SetupPkt) (d : Device) → Holds bytes d → Holds bytes (setup_effect s d)
setup_effect-Holds bytes s d v = ground arith

effect-Holds :
    (bytes : List ℕ) (ty : PktType) (ext : PktExt) (t : Trans) (d : Device)
    → Holds bytes d
    → Holds (brought ty t bytes) (effect ty ext t d)
effect-Holds bytes setup ext t d v = setup_effect-Holds bytes ext.setup_pkt d v
effect-Holds bytes bulk_out ext t d v = ground arith
effect-Holds bytes ctrl_data ext t d v = ground arith
effect-Holds bytes bulk_in ext t d v = ground arith
effect-Holds bytes _ ext t d v = v

packet_effect-Holds :
    (bytes : List ℕ) (o : Option PktExt) (t : Trans) (d : Device)
    → Holds bytes d
    → Holds (brings o t bytes) (packet_effect o t d)
packet_effect-Holds bytes none t d v = v
packet_effect-Holds bytes (some ext) t d v = effect-Holds bytes ext.pkt_type ext t d v

begun-Holds : (bytes : List ℕ) (d : Device) → Holds bytes d → Holds bytes (begun d)
begun-Holds bytes d v = ground arith

packet_effect-Shows :
    (o : Option PktExt) (t : Trans) (p : Waiting) (d : Device)
    → Shows p d
    → Shows p (packet_effect o t d)
packet_effect-Shows none t p d v = v
packet_effect-Shows (some ext) t p d v = irq ext.pkt_type ext
  where
    irq : (ty : PktType) (ext : PktExt) → Shows p (effect ty ext t d)
    irq setup ext = ground arith
    irq bulk_out ext = ground arith
    irq ctrl_data ext = ground arith
    irq bulk_in ext = ground arith
    irq _ ext = v

record Follows (bytes : List ℕ) (p : Waiting) (d : Device) : Type 0 where
  holds : Holds bytes d
  shows : Shows p d

module _ {E : Type 0} (env : Env E) (q : IsQuiet env) where
  receive-Follows :
      (t : Trans) (bytes : List ℕ) (p : Waiting) (w : Device × E)
      → Follows bytes p w.0
      → Follows
          (if env.enable w.1 then brings t.ext t bytes else bytes)
          p
          (from_proto_b_transport env t w).1.0
  receive-Follows t bytes p w h =
      subst (Follows (if env.enable w.1 then brings t.ext t bytes else bytes) p)
        (sym (from_proto_effect env q t w))
        (elim (Bool-cases (env.enable w.1)) [
          | inl e ↦ rw e record {
            holds = packet_effect-Holds bytes t.ext t w.0 h.holds;
            shows = packet_effect-Shows t.ext t p w.0 h.shows;
          }
          | inr e ↦ rw e h
        ])

  Step-Follows :
      {drops : Bool} {s u : Net E} (st : Step env drops s u) (bytes : List ℕ)
      → drops ≡ false
      → Follows bytes s.waiting s.device
      → Follows (step_bytes st bytes) u.waiting u.device
  unfolding end_turn
  Step-Follows (receive s t) bytes n h = receive-Follows t bytes s.waiting (s.device, s.outside) h
  Step-Follows (outside s e) bytes n h = h
  Step-Follows (wake s p w) bytes n h = record {
    holds =
        subst (Holds bytes) (sym (begin_turn_effect env q (s.device, s.outside) h.holds.configured))
          (begun-Holds bytes s.device h.holds);
    shows = begin_turn-Shows env (s.device, s.outside) (ground (arith, h.shows.pulsed, w));
  }
  Step-Follows (drop s c p w) bytes n h = cc
  Step-Follows (pulse_over s p w) bytes n h = record {
    holds = record {
      configured = h.holds.configured;
      in_ep2 = h.holds.in_ep2;
      in_ep1 = h.holds.in_ep1;
      woken = h.holds.woken;
    };
    shows = ground arith;
  }

-- A configured device with empty buffers, no event and no pulse.
pub record IsAtRest {E : Type 0} (s : Net E) : Type 0 where
  pub configured : s.device.configured ≡ true
  pub ep1_empty : s.device.ep1_in.has_data ≡ false
  pub ep2_empty : s.device.ep2_out.has_data ≡ false
  pub no_pulse : s.device.bulk_irq ≡ false
  pub waiting : s.waiting ≡ for_event

-- A device with no event left over.
pub record IsMoved (bytes : List ℕ) (p : Waiting) (d : Device) : Type 0 where
  pub ep2_empty : d.ep2_out.has_data ≡ false
  pub ep1_last : d.ep1_in.has_data ≡ true → d.ep1_in.buffer ≡ bytes
  pub pulsed : d.bulk_irq ≡ true → p ≡ for_pulse
  pub held : p ≡ for_pulse → d.bulk_irq ≡ true

module _ {E : Type 0} (env : Env E) (q : IsQuiet env) (start : Net E) (rest : IsAtRest start) where
  Reach-Follows :
      {drops : Bool} {s : Net E} (r : Reach env drops start s)
      → drops ≡ false
      → Follows (last_bytes r) s.waiting s.device
  unfolding last_bytes
  Reach-Follows here n = record {
    holds = ground (arith, rest.configured, rest.ep1_empty, rest.ep2_empty);
    shows = ground (arith, rest.no_pulse, rest.waiting);
  }
  Reach-Follows (next r st) n = Step-Follows env q st (last_bytes r) n (Reach-Follows r n)

  -- Where nothing calls back into the device while it sends or waits, in any run from a configured
  -- device at rest in which no notification is dropped: as soon as no event is pending, endpoint 2
  -- holds nothing, endpoint 1 holds either nothing or the bytes of the last packet with data that
  -- came while the device was enabled, and `bulk_irq` is raised exactly while the thread waits for
  -- the end of its pulse.
  pub Reach-IsMoved :
      {drops : Bool} {s : Net E} (r : Reach env drops start s)
      → drops ≡ false
      → s.device.out_ep_event ≡ false
      → IsMoved (last_bytes r) s.waiting s.device
  Reach-IsMoved r n e =
      let f = Reach-Follows r n in
      record {
        ep2_empty = ground (arith, f.holds.woken, e);
        ep1_last = ground (arith, f.holds.woken, f.holds.in_ep1, e);
        pulsed = f.shows.pulsed;
        held = f.shows.ended;
      }
