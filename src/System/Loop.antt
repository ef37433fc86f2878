-- ===== src/System/Loop.antt =====
-- src/usb3_host_controller.cpp, `process_transfer_ring`, over the protocol layer and the testbench's
-- peer: a bulk OUT that the peer's loopback buffer keeps, and the bulk IN that reads it back.
use usb3_otg.Base.{
  ℕ, suc, ◌+◌, ◌≡◌, true, false, u32, ◌∙◌, arith, List, [], ◌∷◌, ap, length, take-length, refl, sym,
  subst, Bool, ap₂,
}
use usb3_otg.Types.{host, host_to_device, device_to_host, default_ext, Role}
use usb3_otg.Types.Tlm.{Status}
use usb3_otg.Host
use usb3_otg.Host.{Host}
use usb3_otg.Host.Ring.{Trb, default_trb}
use usb3_otg.Host.Process.{Stop, waits, run_trb, process_transfer_ring, announce, collect}
use usb3_otg.Host.Response.{respond}
use usb3_otg.Protocol
use usb3_otg.Peer
use usb3_otg.System.{System, host_env, to_link}
use usb3_otg.Host.Transfers.{turn_runs, turn_empty}
use usb3_otg.System.Quiet.{IsQuiet, IsQuiet-elim, quiet_env}

-- The two requests of a loopback over the peer, the second for so many bytes.
abbrev pub loopback_out : ℕ → List ℕ → Trb
loopback_out addr bytes = record default_trb {
  dev_addr = addr;
  endpoint = 2;
  direction = host_to_device;
  trb_length = u32 (length bytes);
  payload = bytes;
}

abbrev pub loopback_in : ℕ → ℕ → Trb
loopback_in addr len = record default_trb {
  dev_addr = addr;
  endpoint = 1;
  direction = device_to_host;
  trb_length = u32 len;
}

-- What the loop, begun with the host `h` in `s`, has done in `r` when it stopped.
pub record LoopedBack (bytes : List ℕ) (h : Host) (s : System) (r : Stop × (Host × System))
    : Type 0 where
  pub ring_done : r.0 ≡ waits
  pub received : r.1.0.rx_buf ≡ bytes
  pub response_taken : r.1.0.resp_valid ≡ false
  pub ring_empty : r.1.0.transfer_ring ≡ []
  pub peer_empty : r.1.1.peer.loopback_buf ≡ []
  pub enumeration_kept : r.1.0.dev ≡ h.dev
  pub packets_numbered : r.1.1.protocol.seq_num ≡ u32 (s.protocol.seq_num + 2)

-- The system in host mode, and the host, after each of the two requests.
abbrev after_out : List ℕ → Host × System → Host × System
after_out bytes (h, s) =
    let done : Host = record h { transfer_done = true } in
    (
      record h { transfer_done = false },
      record s {
        protocol = record { seq_num = u32 (s.protocol.seq_num + 1) };
        host = done;
        peer = record (s.peer) { loopback_buf = bytes };
      },
    )

abbrev after_in : List ℕ → Host × System → Host × System
after_in bytes (h, s) =
    let got : Host = record h {
      rx_buf = bytes;
      resp_data = [];
      resp_valid = false;
      transfer_done = true;
    } in
    (
      record got { transfer_done = false },
      record s {
        protocol = record { seq_num = u32 (s.protocol.seq_num + 1) };
        host = got;
        peer = record (s.peer) { loopback_buf = [] };
      },
    )

module _ (fresh : Status) (depth addr : ℕ) where
  abbrev env : Host.Env System
  env = quiet_env fresh depth

  out_step :
      (bytes : List ℕ) (h : Host) (s : System)
      → run_trb env (loopback_out addr bytes) (h, record s { role = host })
        ≡ after_out bytes (h, record s { role = host })
  unfolding run_trb usb3_otg.Host.Process.collect usb3_otg.Host.Process.announce
      Protocol.host_b_transport to_link Peer.b_transport
  out_step bytes h s =
      ap (λ (x : List ℕ). after_out x (h, record s { role = host })) (take-length bytes)

  in_step :
      (len b : ℕ) (bs : List ℕ) (h : Host) (s : System)
      → run_trb env
          (loopback_in addr len)
          (h, record s { role = host; peer = record (s.peer) { loopback_buf = b ∷ bs } })
        ≡ after_in (b ∷ bs) (h, record s { role = host })
  unfolding run_trb usb3_otg.Host.Process.collect usb3_otg.Host.Process.announce
      Protocol.host_b_transport to_link Peer.b_transport usb3_otg.System.upstream_b_transport
      Protocol.link_b_transport usb3_otg.System.to_host usb3_otg.Host.from_protocol_b_transport
  in_step len b bs h s =
      ap
        (λ (g : Host). announce env true (
          collect env device_to_host (
            g,
            record s {
              role = host;
              protocol = record { seq_num = u32 (s.protocol.seq_num + 1) };
              host = g;
              peer = record (s.peer) { loopback_buf = [] };
            },
          )))
        (respond fresh default_ext b bs h s)

  -- The loop over both requests, when no other process runs in the waits.
  loop_alone :
      (fuel len b : ℕ) (bs : List ℕ) (h : Host) (s : System)
      → let t : System = record s { role = host; host_enable = true } in
        let ring = loopback_out addr (b ∷ bs) ∷ loopback_in addr len ∷ [] in
        process_transfer_ring env (suc (suc (suc fuel))) (record h { transfer_ring = ring }, t)
        ≡ (waits, after_in (b ∷ bs) (after_out (b ∷ bs) (record h { transfer_ring = [] }, t)))
  loop_alone fuel len b bs h s =
      let t : System = record s { role = host; host_enable = true } in
      let next = loopback_in addr len in
      let first = loopback_out addr (b ∷ bs) in
      let h0 : Host = record h { transfer_ring = first ∷ next ∷ [] } in
      let h1 : Host = record h { transfer_ring = next ∷ [] } in
      let (g1, t1) = after_out (b ∷ bs) (h1, t) in
      let g2 : Host = record g1 { transfer_ring = [] } in
      let (g3, t3) = after_in (b ∷ bs) (g2, t1) in
      turn_runs env (suc (suc fuel)) h0 t first (next ∷ []) refl refl
      ∙ ap (process_transfer_ring env (suc (suc fuel))) (out_step (b ∷ bs) h1 t)
      ∙ turn_runs env (suc fuel) g1 t1 next [] refl refl
      ∙ ap (process_transfer_ring env (suc fuel)) (in_step len b bs g2 t1)
      ∙ turn_empty env fuel g3 t3 refl refl

  alone :
      (fuel len b : ℕ) (bs : List ℕ) (h : Host) (s : System)
      → LoopedBack
          (b ∷ bs)
          (record h { transfer_ring = loopback_out addr (b ∷ bs) ∷ loopback_in addr len ∷ [] })
          (record s { role = host; host_enable = true })
          (process_transfer_ring env (suc (suc (suc fuel))) (
            record h { transfer_ring = loopback_out addr (b ∷ bs) ∷ loopback_in addr len ∷ [] },
            record s { role = host; host_enable = true },
          ))
  alone fuel len b bs h s =
      subst
        (LoopedBack (b ∷ bs)
          (record h { transfer_ring = loopback_out addr (b ∷ bs) ∷ loopback_in addr len ∷ [] })
          (record s { role = host; host_enable = true }))
        (sym (loop_alone fuel len b bs h s))
        (record {
          ring_done = refl;
          received = refl;
          response_taken = refl;
          ring_empty = refl;
          peer_empty = refl;
          enumeration_kept = refl;
          packets_numbered = omega arith;
        })

-- The same for any quiet waits, and a system that is in host mode.
pub process_transfer_ring-LoopedBack :
    (fresh : Status) (pause : ℕ → System → System)
    → IsQuiet pause
    → (h : Host) (s : System) (depth fuel addr len b : ℕ) (bs : List ℕ) → s.role ≡ host
    → s.host_enable ≡ true
    → h.transfer_ring ≡ loopback_out addr (b ∷ bs) ∷ loopback_in addr len ∷ []
    → LoopedBack
        (b ∷ bs)
        h
        s
        (process_transfer_ring (host_env fresh pause (suc depth)) (suc (suc (suc fuel))) (h, s))
process_transfer_ring-LoopedBack fresh pause quiet h s depth fuel addr len b bs r on q =
    let ports : Role → Bool → System = λ x y. record s { role = x; host_enable = y } in
    let in_host : ports host true ≡ s = ap₂ ports (sym r) (sym on) in
    let ring : List Trb → Host = λ x. record h { transfer_ring = x } in
    let queued : ring (loopback_out addr (b ∷ bs) ∷ loopback_in addr len ∷ []) ≡ h =
      ap ring (sym q) in
    let Runs : (ℕ → System → System) → Host → System → Type 0 = λ f g t.
      LoopedBack (b ∷ bs) g t
        (process_transfer_ring (host_env fresh f (suc depth)) (suc (suc (suc fuel))) (g, t)) in
    subst (Runs pause h) in_host (
      subst (λ (g : Host). Runs pause g (ports host true)) queued
        (IsQuiet-elim
          (λ (f : ℕ → System → System).
            Runs f (ring (loopback_out addr (b ∷ bs) ∷ loopback_in addr len ∷ []))
              (ports host true))
          pause quiet (alone fresh depth addr fuel len b bs h s)))
