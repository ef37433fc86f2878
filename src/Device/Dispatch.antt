-- ===== src/Device/Dispatch.antt =====
-- src/usb3_device_controller.cpp, `from_proto_b_transport`: which handler gets a packet.
use usb3_otg.Base.{◌≡◌, ap, ◌∙◌, true, false, Option, some}
use usb3_otg.Types.{PktExt, setup, bulk_out, bulk_in}
use usb3_otg.Types.Tlm.{Trans, generic_error_response, ok_response, set_status}
use usb3_otg.Device.EpFifo
use usb3_otg.Device.{
  Device, Env, from_proto_b_transport, accept, dispatch, handle_setup, handle_bulk_out, send_read,
}

module _ {E : Type 0} (env : Env E) (t : Trans) (w : Device × E) where
  accept-some :
      {o : Option PktExt} (ext : PktExt)
      → o ≡ some ext
      → accept env o t w ≡ dispatch env ext.pkt_type ext t w
  unfolding accept
  accept-some ext h = ap (λ o. accept env o t w) h

  from_proto-dispatch :
      (ext : PktExt)
      → t.ext ≡ some ext
      → env.enable w.1 ≡ true
      → from_proto_b_transport env t w ≡ dispatch env ext.pkt_type ext t w
  unfolding from_proto_b_transport
  from_proto-dispatch ext h e = rw e (accept-some ext h)

  -- A disabled device drops whatever comes, with an error.
  pub from_proto_disabled :
      env.enable w.1 ≡ false
      → from_proto_b_transport env t w ≡ (set_status generic_error_response t, w)
  unfolding from_proto_b_transport
  from_proto_disabled e = rw e

  module _ (ext : PktExt) (h : t.ext ≡ some ext) where
    pub from_proto-handle_setup :
        ext.pkt_type ≡ setup
        → env.enable w.1 ≡ true
        → from_proto_b_transport env t w ≡ handle_setup env ext.setup_pkt t w
    unfolding dispatch
    from_proto-handle_setup k e = from_proto-dispatch ext h e ∙ ap (λ ty. dispatch env ty ext t w) k

    pub from_proto-handle_bulk_out :
        ext.pkt_type ≡ bulk_out
        → env.enable w.1 ≡ true
        → from_proto_b_transport env t w ≡ handle_bulk_out env t w
    unfolding dispatch
    from_proto-handle_bulk_out k e =
        from_proto-dispatch ext h e ∙ ap (λ ty. dispatch env ty ext t w) k

    pub from_proto-send_read :
        ext.pkt_type ≡ bulk_in
        → env.enable w.1 ≡ true
        → from_proto_b_transport env t w
          ≡ (set_status ok_response t, send_read env (EpFifo.read w.0.ep1_in) w)
    unfolding dispatch
    from_proto-send_read k e = from_proto-dispatch ext h e ∙ ap (λ ty. dispatch env ty ext t w) k
