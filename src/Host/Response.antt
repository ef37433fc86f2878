-- ===== src/Host/Response.antt =====
-- src/usb3_host_controller.cpp, `from_protocol_b_transport`, on a packet as a sender builds it.
use usb3_otg.Base.{
  ℕ, suc, ◌≡◌, ap, ◌∙◌, arith, true, List, ◌∷◌, length, take, take-length, if_true, lt→ltb,
}
use usb3_otg.Types.{PktExt}
use usb3_otg.Types.Tlm.{Status, write_command, packet}
use usb3_otg.Host.{Host, from_protocol_b_transport}

-- A response with data is kept for the host's thread.
pub respond :
    {E : Type 0} (fresh : Status) (ext : PktExt) (b : ℕ) (bs : List ℕ) (h : Host) (e : E)
    → (from_protocol_b_transport (packet fresh write_command ext (b ∷ bs)) (h, e)).1.0
      ≡ record h { resp_data = b ∷ bs; resp_valid = true }
unfolding from_protocol_b_transport
respond fresh ext b bs h e =
    if_true (record h { resp_data = b ∷ take (length bs) bs; resp_valid = true }) h
      (lt→ltb 0 (suc (length bs)) (omega arith))
    ∙ ap (λ (x : List ℕ). (record h { resp_data = b ∷ x; resp_valid = true })) (take-length bs)
