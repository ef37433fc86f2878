-- ===== src/Device/Effects.antt =====
-- src/usb3_device_controller.cpp: what each packet and each turn of the loopback thread does to the
-- device's members, its answers left aside.
use usb3_otg.Base.{
  ℕ, ◌%◌, ◌^◌, ◌≡◌, refl, sym, ap, ◌∙◌, inl, inr, Bool, true, false, ◌&&◌, Option, none, some, List,
  arith, replicate, ◌==◌, if◌then◌else◌, Bool-cases, if_true, if_false,
}
use usb3_otg.Types.{
  usb_req_set_address, usb_req_set_configuration, PktType, PktExt, SetupPkt, setup, Dir, EpType,
  tp_stall, ctrl_data, ctrl_status, bulk_in, bulk_out, control, device_to_host,
}
use usb3_otg.Types.Tlm.{Trans, payload}
use usb3_otg.Device.EpFifo
use usb3_otg.Device.EpFifo.{Fifo}
use usb3_otg.Device.{
  Device, Env, send_to_protocol, send_read, handle_setup, reply_descriptor, from_proto_b_transport,
  accept, dispatch, loopback_turn, copy_back, descriptor_response,
}

-- Surroundings that do not call back into the device while it sends or waits.
pub record IsQuiet {E : Type 0} (env : Env E) : Type 0 where
  pub sends : (t : Trans) (w : Device × E) → (env.to_protocol t w).1.0 ≡ w.0
  pub pauses : (n : ℕ) (w : Device × E) → (env.pause n w).0 ≡ w.0

-- What a packet does to the device, its answers left aside.
abbrev pub setup_effect : SetupPkt → Device → Device
setup_effect s d =
    if s.request == usb_req_set_address
    then record d { assigned_addr = s.value % 2 ^ 7 }
    else if s.request == usb_req_set_configuration
    then record d { configured = true; configured_port = true }
    else d

abbrev pub effect : PktType → PktExt → Trans → Device → Device
effect setup ext t d = setup_effect ext.setup_pkt d
effect bulk_out ext t d = record d {
  ep2_out = record { buffer = payload t; has_data = true };
  out_ep_event = true;
}
effect ctrl_data ext t d = record d {
  ep2_out = record { buffer = payload t; has_data = true };
  out_ep_event = true;
}
effect bulk_in ext t d = record d {
  ep1_in = (if d.ep1_in.has_data then EpFifo.empty else d.ep1_in);
}
effect _ ext t d = d

abbrev pub packet_effect : Option PktExt → Trans → Device → Device
packet_effect none t d = d
packet_effect (some ext) t d = effect ext.pkt_type ext t d

module _ {E : Type 0} (env : Env E) (q : IsQuiet env) where
  send_same :
      (ty : PktType) (ep : ℕ) (dir : Dir) (bytes : List ℕ) (ept : EpType) (w : Device × E)
      → (send_to_protocol env ty ep dir bytes ept w).0 ≡ w.0
  unfolding send_to_protocol
  send_same ty ep dir bytes ept w = q.sends _ w

  reply_same :
      (r : Option (List ℕ)) (t : Trans) (w : Device × E) → (reply_descriptor env r t w).1.0 ≡ w.0
  unfolding reply_descriptor
  reply_same none t w = send_same tp_stall 0 device_to_host (replicate 4 0) control w
  reply_same (some bytes) t w = send_same ctrl_data 0 device_to_host bytes control w

  request_effect :
      (s : SetupPkt) (t : Trans) (w : Device × E)
      → (handle_setup env s t w).1.0 ≡ setup_effect s w.0
  unfolding handle_setup
  request_effect s t w = ground (
    arith,
    reply_same (descriptor_response w.0 s) t w,
    send_same tp_stall 0 device_to_host (replicate 4 0) control w,
    send_same ctrl_data 0 device_to_host (replicate 2 0) control w,
    q.pauses 2000000 (record (w.0) { assigned_addr = s.value % 2 ^ 7 }, w.1),
  )

  read_effect :
      (w : Device × E)
      → (send_read env (EpFifo.read w.0.ep1_in) w).0
        ≡ record (w.0) { ep1_in = (if w.0.ep1_in.has_data then EpFifo.empty else w.0.ep1_in) }
  unfolding send_read EpFifo.read
  read_effect w = elim (Bool-cases w.0.ep1_in.has_data) [
    | inl e ↦ rw (e, EpFifo.read) (q.sends _ _)
    | inr e ↦ rw (e, EpFifo.read) refl
  ]

  dispatch-effect :
      (ty : PktType) (ext : PktExt) (t : Trans) (w : Device × E)
      → (dispatch env ty ext t w).1.0 ≡ effect ty ext t w.0
  unfolding dispatch
  dispatch-effect setup ext t w = request_effect ext.setup_pkt t w
  dispatch-effect bulk_out ext t w = refl
  dispatch-effect ctrl_data ext t w = refl
  dispatch-effect bulk_in ext t w = read_effect w
  dispatch-effect ctrl_status ext t w =
      send_same ctrl_status 0 device_to_host (replicate 1 0) control w
  dispatch-effect _ ext t w = refl

  accept_effect :
      (o : Option PktExt) (t : Trans) (w : Device × E)
      → (accept env o t w).1.0 ≡ packet_effect o t w.0
  unfolding accept
  accept_effect none t w = refl
  accept_effect (some ext) t w = dispatch-effect ext.pkt_type ext t w

  -- Where nothing calls back into the device while it sends or waits, a packet changes of the
  -- enabled device what the description says and nothing else: SET_ADDRESS the address,
  -- SET_CONFIGURATION the configured flag and its port, whatever configuration it names, data to
  -- the device endpoint 2's buffer, and a bulk IN endpoint 1's. A disabled device is left as it
  -- was.
  pub from_proto_effect :
      (t : Trans) (w : Device × E)
      → (from_proto_b_transport env t w).1.0
        ≡ (if env.enable w.1 then packet_effect t.ext t w.0 else w.0)
  unfolding from_proto_b_transport
  from_proto_effect t w = elim (Bool-cases (env.enable w.1)) [
    | inl e ↦ rw e (accept_effect t.ext t w)
    | inr e ↦ rw e
  ]

-- What a turn of the loopback thread does to the device.
abbrev pub turn_effect : Device → Device
turn_effect d =
    let woken = record d { out_ep_event = false } in
    if d.configured && d.ep2_out.has_data
    then record woken {
      ep2_out = EpFifo.empty;
      ep1_in = record { buffer = d.ep2_out.buffer; has_data = true };
      bulk_irq = false;
    }
    else woken

abbrev copy_effect : Option (List ℕ) × Fifo → Device → Device
copy_effect (none, f) d = record d { ep2_out = f }
copy_effect (some bytes, f) d = record d {
  ep2_out = f;
  ep1_in = record { buffer = bytes; has_data = true };
  bulk_irq = false;
}

copy_or_skip :
    (d : Device)
    → d.configured ≡ true
    → copy_effect (EpFifo.read d.ep2_out) (record d { out_ep_event = false }) ≡ turn_effect d
unfolding EpFifo.read
copy_or_skip d c = ground arith

skip_lem : (d : Device) → d.configured ≡ false → turn_effect d ≡ record d { out_ep_event = false }
skip_lem d c = ground arith

module _ {E : Type 0} (env : Env E) (q : IsQuiet env) where
  copy_back_effect :
      (r : Option (List ℕ) × Fifo) (w : Device × E) → (copy_back env r w).0 ≡ copy_effect r w.0
  unfolding copy_back
  copy_back_effect (none, f) w = refl
  copy_back_effect (some bytes, f) w = ap (irq false) (q.pauses 10 _ ∙ ap (irq true) (q.sends _ _))
    where
      irq : Bool → Device → Device
      irq b d = record d { bulk_irq = b }

  -- Where nothing calls back into the device while it sends or waits, a turn of the loopback
  -- thread moves endpoint 2's packet to endpoint 1 if the device is configured and there is one,
  -- and otherwise changes nothing but the used-up event.
  pub loopback_turn_effect : (w : Device × E) → (loopback_turn env w).0 ≡ turn_effect w.0
  unfolding loopback_turn EpFifo.read
  loopback_turn_effect w = elim (Bool-cases w.0.configured) [
    | inl c ↦
        ap (λ (r : Device × E). r.0) (if_true _ _ c)
        ∙ copy_back_effect (EpFifo.read w.0.ep2_out) (record (w.0) { out_ep_event = false }, w.1)
        ∙ copy_or_skip w.0 c
    | inr c ↦ ap (λ (r : Device × E). r.0) (if_false _ _ c) ∙ sym (skip_lem w.0 c)
  ]
