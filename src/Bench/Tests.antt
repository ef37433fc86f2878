-- ===== src/Bench/Tests.antt =====
-- The testbench's theorems and definitions at concrete inputs.
use usb3_otg.Base.{◌≡◌, refl, true, false, [], ◌∷◌}
use usb3_otg.Types.Tlm.{incomplete_response}
use usb3_otg.Drd
use usb3_otg.Host
use usb3_otg.System
use usb3_otg.Bench.{init, tx_data, check_loopback, run_scenarios, finish, sc_main}
use usb3_otg.Bench.Check.{check_loopback_iff}
use usb3_otg.Bench.ReadBack.{finish_lem}
use usb3_otg.Bench.Kernel.{settle}
use usb3_otg.Bench.Passes.{Passes, run_scenarios-Passes}

check_loopback_iff_example : check_loopback tx_data tx_data ≡ true
unfolding usb3_otg.Bench.pattern
check_loopback_iff_example = (check_loopback_iff tx_data tx_data refl).1 refl

too_short : check_loopback (0 ∷ 1 ∷ 2 ∷ []) tx_data ≡ false
unfolding check_loopback
too_short = refl

finish_lem_example :
    (finish incomplete_response (9 ∷ 9 ∷ 9 ∷ 9 ∷ []) (λ _ b. b) init).1.drd.intr_status ≡ 0
finish_lem_example = (finish_lem incomplete_response (9 ∷ 9 ∷ 9 ∷ 9 ∷ []) (λ _ b. b) init).3

-- The simulation itself.
run_scenarios-Passes_example :
    Passes (sc_main incomplete_response (0 ∷ 0 ∷ 0 ∷ 0 ∷ []) (settle incomplete_response 1 2))
unfolding sc_main init usb3_otg.System.init
run_scenarios-Passes_example =
    run_scenarios-Passes incomplete_response 1 0 (0 ∷ 0 ∷ 0 ∷ 0 ∷ []) Drd.init Host.init System.init
