-- ===== src/Device/Frame.antt =====
-- src/usb3_device_controller.cpp: what holds of the rest of the system, and is kept by each packet
-- that the device sends and by its waits, is kept by the device's handlers.
use usb3_otg.Base.{ℕ, Option, none, some, List, arith, replicate, ◌%◌, ◌^◌}
use usb3_otg.Types.{
  SetupPkt, PktType, PktExt, Dir, EpType, setup, ctrl_data, ctrl_status, bulk_in, device_to_host,
  control, tp_stall,
}
use usb3_otg.Types.Tlm.{Trans}
use usb3_otg.Device.EpFifo
use usb3_otg.Device.EpFifo.{Fifo}
use usb3_otg.Device.{
  Device, Env, send_to_protocol, reply_descriptor, descriptor_response, handle_setup, send_read,
  dispatch, accept, from_proto_b_transport, stall_endpoint,
}

pub record Keeps {E : Type 0} (env : Env E) (P : E → Type 0) : Type 0 where
  pub sends : (t : Trans) (w : Device × E) → P w.1 → P (env.to_protocol t w).1.1
  pub pauses : (n : ℕ) (w : Device × E) → P w.1 → P (env.pause n w).1

module _ {E : Type 0} (env : Env E) (P : E → Type 0) (k : Keeps env P) where
  -- Of a result.
  abbrev Holds : Trans × (Device × E) → Type 0
  Holds r = P r.1.1

  send_keeps :
      (ty : PktType) (ep : ℕ) (dir : Dir) (bytes : List ℕ) (ept : EpType) (w : Device × E)
      → P w.1
      → P (send_to_protocol env ty ep dir bytes ept w).1
  unfolding send_to_protocol
  send_keeps ty ep dir bytes ept w p = k.sends _ w p

  stall_keeps : (ep : ℕ) (w : Device × E) → P w.1 → P (stall_endpoint env ep w).1
  unfolding stall_endpoint
  stall_keeps ep w p = send_keeps tp_stall ep device_to_host (replicate 4 0) control w p

  reply_keeps :
      (r : Option (List ℕ)) (t : Trans) (w : Device × E)
      → P w.1
      → Holds (reply_descriptor env r t w)
  unfolding reply_descriptor send_to_protocol
  reply_keeps none t w p = k.sends _ w p
  reply_keeps (some bytes) t w p = k.sends _ w p

  setup_keeps : (s : SetupPkt) (t : Trans) (w : Device × E) → P w.1 → Holds (handle_setup env s t w)
  unfolding handle_setup
  setup_keeps s t w p = ground (
    arith,
    reply_keeps (descriptor_response w.0 s) t w p,
    k.pauses 2000000 (record (w.0) { assigned_addr = s.value % 2 ^ 7 }, w.1) p,
    stall_keeps 0 w p,
    send_keeps ctrl_data 0 device_to_host (replicate 2 0) control w p,
    p,
  )

  read_keeps : (r : Option (List ℕ) × Fifo) (w : Device × E) → P w.1 → P (send_read env r w).1
  unfolding send_read send_to_protocol
  read_keeps (some bytes, f) w p = k.sends _ _ p
  read_keeps (none, f) w p = p

  dispatch_keeps :
      (ty : PktType) (ext : PktExt) (t : Trans) (w : Device × E)
      → P w.1
      → Holds (dispatch env ty ext t w)
  unfolding dispatch send_to_protocol
  dispatch_keeps setup ext t w p = setup_keeps ext.setup_pkt t w p
  dispatch_keeps ctrl_status ext t w p = k.sends _ w p
  dispatch_keeps bulk_in ext t w p = read_keeps (EpFifo.read w.0.ep1_in) w p
  dispatch_keeps _ ext t w p = p

  accept_keeps : (o : Option PktExt) (t : Trans) (w : Device × E) → P w.1 → Holds (accept env o t w)
  unfolding accept
  accept_keeps none t w p = p
  accept_keeps (some ext) t w p = dispatch_keeps ext.pkt_type ext t w p

  pub from_proto_keeps :
      (t : Trans) (w : Device × E) → P w.1 → P (from_proto_b_transport env t w).1.1
  unfolding from_proto_b_transport
  from_proto_keeps t w p = ground (arith, accept_keeps t.ext t w p, p)
