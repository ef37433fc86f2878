-- ===== src/Peer/Frame.antt =====
-- src/sc_main.cpp: what holds of the rest of the system, and is kept by each packet that the peer
-- sends, is kept by the peer's handler.
use usb3_otg.Base.{ℕ, Option, none, some, List, [], ◌∷◌, arith}
use usb3_otg.Types.{SetupPkt, PktType, PktExt, setup, bulk_in}
use usb3_otg.Types.Tlm.{Trans}
use usb3_otg.Peer.{
  Peer, Env, descriptor, send_ctrl_data, handle_setup, answer_bulk_in, dispatch, accept,
  b_transport,
}

pub record Keeps {E : Type 0} (env : Env E) (P : E → Type 0) : Type 0 where
  pub sends : (t : Trans) (w : Peer × E) → P w.1 → P (env.to_drd t w).1.1

module _ {E : Type 0} (env : Env E) (P : E → Type 0) (k : Keeps env P) where
  data_keeps : (bytes : List ℕ) (w : Peer × E) → P w.1 → P (send_ctrl_data env bytes w).1
  unfolding send_ctrl_data
  data_keeps [] w p = p
  data_keeps (b ∷ bs) w p = k.sends _ w p

  setup_keeps : (s : SetupPkt) (w : Peer × E) → P w.1 → P (handle_setup env s w).1
  unfolding handle_setup
  setup_keeps s w p = ground (arith, data_keeps (descriptor s) w p, p)

  answer_keeps :
      (bytes : List ℕ) (ep : ℕ) (w : Peer × E) → P w.1 → P (answer_bulk_in env bytes ep w).1
  unfolding answer_bulk_in
  answer_keeps [] ep w p = p
  answer_keeps (b ∷ bs) ep w p = k.sends _ w p

  dispatch_keeps :
      (ty : PktType) (ext : PktExt) (t : Trans) (w : Peer × E)
      → P w.1
      → P (dispatch env ty ext t w).1.1
  unfolding dispatch
  dispatch_keeps setup ext t w p = setup_keeps ext.setup_pkt w p
  dispatch_keeps bulk_in ext t w p = answer_keeps w.0.loopback_buf ext.endpoint w p
  dispatch_keeps _ ext t w p = p

  accept_keeps : (o : Option PktExt) (t : Trans) (w : Peer × E) → P w.1 → P (accept env o t w).1.1
  unfolding accept
  accept_keeps none t w p = p
  accept_keeps (some ext) t w p = dispatch_keeps ext.pkt_type ext t w p

  pub b_transport_keeps : (t : Trans) (w : Peer × E) → P w.1 → P (b_transport env t w).1.1
  unfolding b_transport
  b_transport_keeps t w p = accept_keeps t.ext t w p
