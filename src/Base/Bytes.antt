-- ===== src/Base/Bytes.antt =====
-- Little-endian bytes, as `memcpy` moves them on the machines that the model runs on.
use Prim.Native.Nat.{ℕ, ◌+◌, ◌*◌, ◌/◌, ◌%◌, ◌^◌, ◌<◌}
use mathlib.Core.Path.{◌≡◌}
use mathlib.Core.List.{List, [], ◌∷◌, ◌++◌}
use native.Mathlib.Omega.{arith}
use usb3_otg.Base.Lists.{get_or}

abbrev pub le16 : ℕ → List ℕ
le16 v = v % 256 ∷ v / 2 ^ 8 % 256 ∷ []

abbrev pub le32 : ℕ → List ℕ
le32 v = v % 256 ∷ v / 2 ^ 8 % 256 ∷ v / 2 ^ 16 % 256 ∷ v / 2 ^ 24 % 256 ∷ []

abbrev pub get_le32 : List ℕ → ℕ
get_le32 bs =
    get_or bs 0 0 + get_or bs 1 0 * 2 ^ 8 + get_or bs 2 0 * 2 ^ 16 + get_or bs 3 0 * 2 ^ 24

pub get_le32-le32 : (v : ℕ) (rest : List ℕ) → v < 2 ^ 32 → get_le32 (le32 v ++ rest) ≡ v
get_le32-le32 v rest h = omega arith
