-- ===== src/System/Scenario.antt =====
-- src/usb3_host_controller.cpp, a turn of `host_main_process` over the protocol layer and the peer:
-- the flow of the first test in src/sc_main.cpp, with its requests queued beforehand.
use usb3_otg.Base.{ℕ, suc, ◌≡◌, true, List, [], ◌∷◌, ◌∙◌}
use usb3_otg.Types.{host}
use usb3_otg.Types.Tlm.{Status}
use usb3_otg.Host.{Host, no_device}
use usb3_otg.Host.Enumerate.{enumerate_device}
use usb3_otg.Host.Process.{main_turn}
use usb3_otg.System.{System, host_env}
use usb3_otg.System.Quiet.{IsQuiet}
use usb3_otg.System.Loop.{loopback_out, loopback_in, LoopedBack, process_transfer_ring-LoopedBack}
use usb3_otg.System.Enumeration.{Enumerated, enumerate_device-Enumerated}

-- The host as the thread finds it when it starts to enumerate.
abbrev pub cleared : Host → Host
cleared h = record h { dev = no_device }

-- In host mode with the host enabled, and when no other process changes the system in the host's
-- waits: with a bulk OUT of any data but none and a bulk IN in the ring, and nothing else, a turn
-- of the host's thread enumerates the peer, runs both requests, and ends in the wait for the
-- next, with the peer's identity in its device information and the data in its receive buffer.
pub main_turn-Enumerated :
    (fresh : Status) (pause : ℕ → System → System)
    → IsQuiet pause
    → (s : System) (depth fuel addr len b : ℕ) (bs : List ℕ) → s.role ≡ host
    → s.host_enable ≡ true
    → s.host.transfer_ring ≡ loopback_out addr (b ∷ bs) ∷ loopback_in addr len ∷ []
    → let (h', s') = enumerate_device (host_env fresh pause (suc depth)) (cleared s.host, s) in
      Enumerated (cleared s.host) s (h', s')
      × LoopedBack
          (b ∷ bs)
          h'
          s'
          (main_turn (host_env fresh pause (suc depth)) (suc (suc (suc fuel))) (s.host, s))
unfolding main_turn
main_turn-Enumerated fresh pause quiet s depth fuel addr len b bs r on q =
    let e = enumerate_device-Enumerated fresh pause quiet (cleared s.host) s depth r in
    let (h', s') = enumerate_device (host_env fresh pause (suc depth)) (cleared s.host, s) in
    (
      e,
      process_transfer_ring-LoopedBack fresh pause quiet h' s' depth fuel addr len b bs e.same_role
          (e.enable_kept ∙ on) (e.ring_kept ∙ q),
    )
