-- ===== src/System/Descriptors.antt =====
-- src/usb3_host_controller.cpp, `get_descriptor`, over the protocol layer and the testbench's peer.
use usb3_otg.Base.{
  ℕ, suc, ◌+◌, ◌^◌, ◌<◌, ◌≡◌, refl, true, List, [], ◌∷◌, u32, ap, sym, subst, Bool, false, if_true,
  ◌∙◌, ap₂,
}
use usb3_otg.Types.{host, default_ext, Role}
use usb3_otg.Types.Tlm.{Status}
use usb3_otg.Host
use usb3_otg.Host.{Host, read_length}
use usb3_otg.Protocol
use usb3_otg.Peer
use usb3_otg.System.{System, host_env, peer_env, to_link}
use usb3_otg.Host.Response.{respond}
use usb3_otg.System.Quiet.{IsQuiet, IsQuiet-elim, quiet_env}
use usb3_otg.System.Asked.{whole, asks, descriptor-whole, positive_length}

-- What the caller's buffer holds after the request.
abbrev pub filled : List ℕ → List ℕ → List ℕ
filled [] buf = buf
filled (b ∷ bs) buf = b ∷ bs

-- What a request for a descriptor has done, where the peer has `found`.
pub record GotDescriptor (found buf : List ℕ) (s : System) (r : Bool × List ℕ × (Host × System))
    : Type 0 where
  pub succeeds : r.0 ≡ true
  pub buffer : r.1 ≡ filled found buf
  pub used : r.2.0.resp_valid ≡ false
  pub device_kept : r.2.0.dev ≡ s.host.dev
  pub peer_kept : r.2.1.peer ≡ s.peer

module _ (fresh : Status) (depth : ℕ) where
  abbrev env : Host.Env System
  env = quiet_env fresh depth

  -- What the peer's answer does, once the setup packet is with it.
  answer : List ℕ → Host × System → Host × System
  answer resp (h, s) =
      let (x, s') =
        Peer.send_ctrl_data (peer_env fresh (λ _ s. s) (to_link fresh (λ _ s. s) depth)) resp (
          s.peer,
          record s { host = h; protocol = record { seq_num = u32 (s.protocol.seq_num + 1) } },
        ) in
      (s'.host, record s' { peer = x })

  setup_stage-answer :
      (addr ty idx : ℕ) (h : Host) (s : System)
      → Host.setup_stage env addr (asks ty idx) (h, s)
        ≡ answer (Peer.descriptor (asks ty idx)) (h, s)
  unfolding Host.setup_stage Protocol.host_b_transport to_link Peer.b_transport answer
  setup_stage-answer addr ty idx h s = refl

  -- In host mode.
  answer_data :
      (b : ℕ) (bs : List ℕ) (h : Host) (s : System)
      → answer (b ∷ bs) (h, record s { role = host }) ≡ (
          let g : Host = record h { resp_data = b ∷ bs; resp_valid = true } in
          (
            g,
            record s {
              role = host;
              host = g;
              protocol = record { seq_num = u32 (s.protocol.seq_num + 1) };
            },
          ))
  unfolding answer Peer.send_ctrl_data usb3_otg.System.upstream_b_transport
      Protocol.link_b_transport usb3_otg.System.to_host Host.from_protocol_b_transport
  answer_data b bs h s =
      ap
        (λ (g : Host). (
          g,
          (record s {
            role = host;
            host = g;
            protocol = record { seq_num = u32 (s.protocol.seq_num + 1) };
          }),
        ))
        (respond fresh default_ext b bs h s)

  module _ (addr : ℕ) (buf : List ℕ) where
    -- The rest of the transfer, and what it has done in the end.
    finish : Host × System → Bool × List ℕ × (Host × System)
    finish w =
        let (buf', w1) = Host.read_response env buf w in
        let (done, w2) = Host.status_stage env addr false w1 in (done, buf', w2)

    finish_nil :
        (h : Host) (s : System)
        → GotDescriptor [] buf
            (record s { role = host; host = record h { resp_valid = false } })
            (finish (answer [] (record h { resp_valid = false }, record s { role = host })))
    unfolding finish answer Peer.send_ctrl_data Host.read_response Host.status_stage
        Protocol.host_b_transport to_link Peer.b_transport
    finish_nil h s = record {
      succeeds = refl;
      buffer = refl;
      used = refl;
      device_kept = refl;
      peer_kept = refl;
    }

    finish_data :
        (b : ℕ) (bs : List ℕ) (h : Host) (s : System)
        → GotDescriptor
            (b ∷ bs)
            buf
            (record s { role = host; host = h })
            (finish (answer (b ∷ bs) (h, record s { role = host })))
    unfolding finish Host.read_response Host.status_stage Protocol.host_b_transport to_link
        Peer.b_transport
    finish_data b bs h s =
        subst
          (λ (w : Host × System).
            GotDescriptor (b ∷ bs) buf (record s { role = host; host = h }) (finish w))
          (sym (answer_data b bs h s))
          (record {
            succeeds = refl;
            buffer = refl;
            used = refl;
            device_kept = refl;
            peer_kept = refl;
          })

    get_descriptor-finish :
        (ty idx : ℕ) (h : Host) (s : System)
        → Host.get_descriptor env addr ty idx buf (h, s)
          ≡ finish (answer (Peer.descriptor (asks ty idx)) (h, s))
    unfolding Host.get_descriptor Host.ctrl_transfer Host.data_stage finish
    get_descriptor-finish ty idx h s =
        let w = Host.setup_stage env addr (asks ty idx) (h, s) in
        ap
          (λ (x : List ℕ × (Host × System)).
            let (done, w2) = Host.status_stage env addr false x.1 in (done, x.0, w2))
          (if_true (Host.read_response env buf w) (buf, w) (positive_length ty))
        ∙ ap finish (setup_stage-answer addr ty idx h s)

    finish-GotDescriptor :
        (resp : List ℕ) (h : Host) (s : System)
        → GotDescriptor resp buf
            (record s { role = host; host = record h { resp_valid = false } })
            (finish (answer resp (record h { resp_valid = false }, record s { role = host })))
    finish-GotDescriptor [] h s = finish_nil h s
    finish-GotDescriptor (b ∷ bs) h s = finish_data b bs (record h { resp_valid = false }) s

    alone :
        (ty idx : ℕ) (h : Host) (s : System)
        → ty < 2 ^ 8
        → idx < 2 ^ 8
        → let t : System = record s { role = host; host = record h { resp_valid = false } } in
          GotDescriptor (whole ty) buf t (Host.get_descriptor env addr ty idx buf (t.host, t))
    alone ty idx h s p q =
        let t : System = record s { role = host; host = record h { resp_valid = false } } in
        let asked = asks ty idx in
        subst (GotDescriptor (whole ty) buf t)
          (sym (
            get_descriptor-finish ty idx t.host t
            ∙ ap (λ (resp : List ℕ). finish (answer resp (t.host, t)))
                (descriptor-whole ty idx p q)))
          (finish-GotDescriptor (whole ty) h (record s { host = t.host }))

module _ (fresh : Status) where
  -- In host mode, with no response left over and no other process at work in the host's waits, a
  -- request for a descriptor, of a type and an index of one byte each, always succeeds. The
  -- caller's buffer then holds the peer's descriptor of that type, whole and unchanged, for a
  -- device, a configuration or a BOS descriptor, and what it held before for any other type,
  -- which the peer does not have. No response is left over.
  pub get_descriptor-GotDescriptor :
      (pause : ℕ → System → System)
      → IsQuiet pause
      → (s : System) (depth addr ty idx : ℕ) (buf : List ℕ) → s.role ≡ host
      → s.host.resp_valid ≡ false
      → ty < 2 ^ 8
      → idx < 2 ^ 8
      → GotDescriptor
          (whole ty)
          buf
          s
          (Host.get_descriptor (host_env fresh pause (suc depth)) addr ty idx buf (s.host, s))
  get_descriptor-GotDescriptor pause quiet s depth addr ty idx buf r v p q =
      let build : Role → Bool → System =
        λ x y. record s { role = x; host = record (s.host) { resp_valid = y } } in
      let in_host : build host false ≡ s = ap₂ build (sym r) (sym v) in
      subst
        (λ (t : System).
          GotDescriptor (whole ty) buf t
            (Host.get_descriptor (host_env fresh pause (suc depth)) addr ty idx buf (t.host, t)))
        in_host
        (IsQuiet-elim
          (λ (f : ℕ → System → System). GotDescriptor (whole ty) buf (build host false) (
            Host.get_descriptor (host_env fresh f (suc depth)) addr ty idx buf
              ((build host false).host, build host false)))
          pause quiet (alone fresh depth addr buf ty idx s.host s p q))
