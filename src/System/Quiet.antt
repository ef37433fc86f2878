-- ===== src/System/Quiet.antt =====
-- The connected system while no other process runs in the waits of a thread, which is how the code's
-- fixed waits are meant: nothing else is due in them.
use mathlib.Core.Path.{fun_ext}
use usb3_otg.Base.{ℕ, suc, ◌≡◌, sym, subst}
use usb3_otg.Types.Tlm.{Status}
use usb3_otg.Host.{Env}
use usb3_otg.System.{System, host_env}

abbrev pub IsQuiet : (ℕ → System → System) → Type 0
IsQuiet pause = (n : ℕ) (t : System) → pause n t ≡ t

abbrev pub idle : ℕ → System → System
idle n t = t

-- What holds of idle waits holds of all quiet ones.
pub IsQuiet-elim {ℓ} :
    (P : (ℕ → System → System) → Type ℓ) (pause : ℕ → System → System)
    → IsQuiet pause
    → P idle
    → P pause
IsQuiet-elim P pause quiet p = subst P (fun_ext (λ n. fun_ext (λ t. sym (quiet n t)))) p

abbrev pub quiet_env : Status → ℕ → Env System
quiet_env fresh depth = host_env fresh idle (suc depth)
