-- ===== src/Device/Missed.antt =====
-- src/usb3_device_controller.cpp, what becomes of a packet that comes while `loopback_process` holds
-- its pulse.
use usb3_otg.Base.{◌≡◌, refl, ap, ◌∙◌, true, false, some, List, ℕ, arith, if_true, none, Option}
use usb3_otg.Types.{PktExt, bulk_out, setup, SetupPkt, ctrl_data, bulk_in, PktType}
use usb3_otg.Types.Tlm.{Trans, payload}
use usb3_otg.Device.{Device, Env, from_proto_b_transport}
use usb3_otg.Device.Effects.{IsQuiet, effect, packet_effect, from_proto_effect, setup_effect}
use usb3_otg.Device.Loopback.{arrived}
use usb3_otg.Device.Thread.{
  for_event, for_pulse, begin_turn, end_turn, Net, net, Step, receive, outside, wake, drop,
  pulse_over, Reach, here, next,
}
use usb3_otg.Device.Moved.{IsAtRest}
use usb3_otg.Device.Turn.{begun, begin_turn_effect, begin_turn-Shows}

module _ {E : Type 0} (env : Env E) where
  abbrev received : Trans → Net E → Net E
  received t s = net (s.waiting, (from_proto_b_transport env t (s.device, s.outside)).1)

  abbrev woken : Net E → Net E
  woken s = net (begin_turn env (s.device, s.outside))

  -- A packet and the turn that it wakes, a second packet during the pulse, whose notification is
  -- dropped, and the end of the pulse.
  abbrev pub after_pulse : Trans → Trans → Net E → Net E
  after_pulse first second s =
      let held = received second (woken (received first s)) in
      record held {
        device = end_turn (record (held.device) { out_ep_event = false });
        waiting = for_event;
      }

-- A bulk OUT packet.
pub record IsBulkOut (t : Trans) : Type 0 where
  pub ext : PktExt
  pub carried : t.ext ≡ some ext
  pub is_out : ext.pkt_type ≡ bulk_out

begun_if :
    (d : Device) → d.configured ≡ true → d.ep2_out.has_data ≡ true → (begun d).bulk_irq ≡ true
begun_if d c h = ground arith

setup_keeps_full :
    (p : SetupPkt) (d : Device)
    → d.ep2_out.has_data ≡ true
    → (setup_effect p d).ep2_out.has_data ≡ true
setup_keeps_full p d h = ground arith

packet_keeps_full :
    (o : Option PktExt) (t : Trans) (d : Device)
    → d.ep2_out.has_data ≡ true
    → (packet_effect o t d).ep2_out.has_data ≡ true
packet_keeps_full none t d h = h
packet_keeps_full (some ext) t d h = go ext.pkt_type
  where
    go : (ty : PktType) → (effect ty ext t d).ep2_out.has_data ≡ true
    go setup = setup_keeps_full ext.setup_pkt d h
    go bulk_out = refl
    go ctrl_data = refl
    go bulk_in = h
    go _ = h

-- The thread waits for an event, none is pending, and endpoint 2 holds these bytes.
pub record IsStuck {E : Type 0} (bytes : List ℕ) (s : Net E) : Type 0 where
  pub waiting : s.waiting ≡ for_event
  pub no_event : s.device.out_ep_event ≡ false
  pub full : s.device.ep2_out.has_data ≡ true
  pub kept : s.device.ep2_out.buffer ≡ bytes

module _ {E : Type 0} (env : Env E) (q : IsQuiet env) (on : (e : E) → env.enable e ≡ true) where
  out_effect :
      (t : Trans) (w : Device × E)
      → IsBulkOut t
      → (from_proto_b_transport env t w).1.0 ≡ arrived w.0 (payload t)
  out_effect t w o =
      from_proto_effect env q t w
      ∙ if_true _ _ (on w.1)
      ∙ ap (λ x. packet_effect x t w.0) o.carried
      ∙ ap (λ x. effect x o.ext t w.0) o.is_out

  stays_full :
      {bytes : List ℕ} {s u : Net E}
      → IsStuck bytes s
      → Step env true s u
      → u.device.ep2_out.has_data ≡ true
  stays_full k (receive s t) =
      ap (λ (d : Device). d.ep2_out.has_data)
        (from_proto_effect env q t (s.device, s.outside) ∙ if_true _ _ (on s.outside))
      ∙ packet_keeps_full t.ext t s.device k.full
  stays_full k (outside s e) = k.full
  stays_full k (wake s p w) = cc
  stays_full k (drop s c p w) = cc
  stays_full k (pulse_over s p w) = cc

  module _ (first second : Trans) (o1 : IsBulkOut first) (o2 : IsBulkOut second) (s : Net E)
      (rest : IsAtRest s) where
    abbrev s1 : Net E
    s1 = received env first s

    abbrev s2 : Net E
    s2 = woken env s1

    abbrev s3 : Net E
    s3 = received env second s2

    first_in : s1.device ≡ arrived s.device (payload first)
    first_in = out_effect first (s.device, s.outside) o1

    begun_in : s2.device ≡ begun (arrived s.device (payload first))
    begun_in =
        begin_turn_effect env q (s1.device, s1.outside)
          (ap (λ (d : Device). d.configured) first_in ∙ rest.configured)
        ∙ ap begun first_in

    held : s3.waiting ≡ for_pulse
    held =
        (begin_turn-Shows env (s1.device, s1.outside)
            (ap (λ (d : Device). d.bulk_irq) first_in ∙ rest.no_pulse)).pulsed
          (ap (λ (d : Device). d.bulk_irq) begun_in
            ∙ begun_if (arrived s.device (payload first)) rest.configured refl)

    second_in : s3.device ≡ arrived (begun (arrived s.device (payload first))) (payload second)
    second_in =
        out_effect second (s2.device, s2.outside) o2 ∙ ap (λ d. arrived d (payload second)) begun_in

    run : Reach env true s (after_pulse env first second s)
    run =
        next
          (next
            (next
              (next (next here (receive s first))
                (wake _ (ap (λ (d : Device). d.out_ep_event) first_in) rest.waiting))
              (receive _ second))
            (drop _ refl (ap (λ (d : Device). d.out_ep_event) second_in) held))
          (pulse_over _ refl held)

    stuck : IsStuck (payload second) (after_pulse env first second s)
    unfolding end_turn
    stuck = record {
      waiting = refl;
      no_event = refl;
      full = ap (λ (d : Device). d.ep2_out.has_data) second_in;
      kept = ap (λ (d : Device). d.ep2_out.buffer) second_in;
    }

  -- Where nothing calls back into the enabled device while it sends or waits, two bulk OUT packets
  -- to a configured device at rest can come so close that the second is not looped back: it comes
  -- during the pulse for the first, its notification is dropped, and the run goes on to a state in
  -- which its bytes stand in endpoint 2, no event is pending and the thread waits for one. No
  -- single step from there empties endpoint 2.
  pub packet_missed :
      (first second : Trans) (s : Net E)
      → IsBulkOut first
      → IsBulkOut second
      → IsAtRest s
      → Reach env true s (after_pulse env first second s)
        × IsStuck (payload second) (after_pulse env first second s)
        × ((u : Net E)
            → Step env true (after_pulse env first second s) u
            → u.device.ep2_out.has_data ≡ true)
  packet_missed first second s o1 o2 rest = (
    run first second o1 o2 s rest,
    stuck first second o1 o2 s rest,
    λ u st. stays_full (stuck first second o1 o2 s rest) st,
  )
