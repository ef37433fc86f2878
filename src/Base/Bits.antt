-- ===== src/Base/Bits.antt =====
-- `bit i a` is bit `i` of `a`. The laws say what `&`, `|`, `^` and the 32-bit `~` do to each bit.
use Prim.Native.Nat.{
  ℕ, zero, suc, ◌+◌, ◌-◌, ◌*◌, ◌/◌, ◌%◌, ◌^◌, ◌≤◌, ◌<◌, min, max, bit_and, bit_or, digits,
  bit_and-bitwise, bit_or-bitwise,
}
use mathlib.Core.Path.{◌≡◌, refl, sym, ap, ap₂, ◌∙◌}
use native.Mathlib.Nat.{pow-suc, one-le-pow}
use native.Mathlib.Omega.{arith}

abbrev pub bit : ℕ → ℕ → ℕ
bit zero a = a % 2
bit (suc i) a = bit i (a / 2)

pub bit-le : (i a : ℕ) → bit i a ≤ 1
bit-le zero a = omega arith
bit-le (suc i) a = bit-le i (a / 2)

pub bit-zero : (i : ℕ) → bit i 0 ≡ 0
bit-zero zero = refl
bit-zero (suc i) = bit-zero i

-- The digits' recursion gives one result on any fuel that is large enough.
module _ (z : ℕ → ℕ) (f : ℕ → ℕ → ℕ) where
  digits_enough : (n m a b : ℕ) → a ≤ n → a ≤ m → digits z f n a b ≡ digits z f m a b
  digits_enough zero zero a b p q = refl
  digits_enough zero (suc m) zero b p q = refl
  digits_enough zero (suc m) (suc a) b p q = absurd (omega arith)
  digits_enough (suc n) zero zero b p q = refl
  digits_enough (suc n) zero (suc a) b p q = absurd (omega arith)
  digits_enough (suc n) (suc m) zero b p q = refl
  digits_enough (suc n) (suc m) (suc a) b p q =
      omega (arith, digits_enough n m (suc a / 2) (b / 2) (omega arith) (omega arith))

bit_and_step : (a b : ℕ) → bit_and a b ≡ bit_and (a / 2) (b / 2) * 2 + min (a % 2) (b % 2)
bit_and_step zero b = omega (arith, bit_and-bitwise 0 b, bit_and-bitwise 0 (b / 2))
bit_and_step (suc a) b = omega (
  arith,
  bit_and-bitwise (suc a) b,
  bit_and-bitwise (suc a / 2) (b / 2),
  digits_enough (λ b. zero) min a (suc a / 2) (suc a / 2) (b / 2) (omega arith) (omega arith),
)

bit_or_step : (a b : ℕ) → bit_or a b ≡ bit_or (a / 2) (b / 2) * 2 + max (a % 2) (b % 2)
bit_or_step zero b = omega (arith, bit_or-bitwise 0 b, bit_or-bitwise 0 (b / 2))
bit_or_step (suc a) b = omega (
  arith,
  bit_or-bitwise (suc a) b,
  bit_or-bitwise (suc a / 2) (b / 2),
  digits_enough (λ b. b) max a (suc a / 2) (suc a / 2) (b / 2) (omega arith) (omega arith),
)

bit_and_half : (a b : ℕ) → bit_and a b / 2 ≡ bit_and (a / 2) (b / 2)
bit_and_half a b = omega (arith, bit_and_step a b)

bit_or_half : (a b : ℕ) → bit_or a b / 2 ≡ bit_or (a / 2) (b / 2)
bit_or_half a b = omega (arith, bit_or_step a b)

pub bit-bit_and : (i a b : ℕ) → bit i (bit_and a b) ≡ min (bit i a) (bit i b)
bit-bit_and zero a b = omega (arith, bit_and_step a b)
bit-bit_and (suc i) a b = rw (bit_and_half a b) (bit-bit_and i (a / 2) (b / 2))

pub bit-bit_or : (i a b : ℕ) → bit i (bit_or a b) ≡ max (bit i a) (bit i b)
bit-bit_or zero a b = omega (arith, bit_or_step a b)
bit-bit_or (suc i) a b = rw (bit_or_half a b) (bit-bit_or i (a / 2) (b / 2))

-- A number with no bit is 0, and a number that is not 0 has a bit.
pub bit_and-zero_left : (b : ℕ) → bit_and 0 b ≡ 0
bit_and-zero_left b = bit_and-bitwise 0 b

-- `~v` of a `w`-bit word.
abbrev pub complement : ℕ → ℕ → ℕ
complement w v = 2 ^ w - 1 - v

pub bit-complement : (w i v : ℕ) → i < w → v < 2 ^ w → bit i (complement w v) ≡ 1 - bit i v
bit-complement zero i v h p = absurd (omega arith)
bit-complement (suc w) zero v h p = omega (arith, pow-suc 2 w)
bit-complement (suc w) (suc i) v h p =
    let half : complement (suc w) v / 2 ≡ complement w (v / 2) = omega (arith, pow-suc 2 w) in
    rw half (bit-complement w i (v / 2) (omega arith) (omega (arith, pow-suc 2 w)))

-- The operations stay below a power of two that bounds their arguments.
pub bit_and-lt : (w a b : ℕ) → a < 2 ^ w → bit_and a b < 2 ^ w
bit_and-lt zero a b h =
    let none : a ≡ 0 = omega arith in rw (none, bit_and-zero_left b) (omega arith)
bit_and-lt (suc w) a b h = omega (
  arith,
  pow-suc 2 w,
  bit_and_step a b,
  bit_and-lt w (a / 2) (b / 2) (omega (arith, pow-suc 2 w)),
)

bit_or-zero_both : bit_or 0 0 ≡ 0
bit_or-zero_both = refl

pub bit_or-lt : (w a b : ℕ) → a < 2 ^ w → b < 2 ^ w → bit_or a b < 2 ^ w
bit_or-lt zero a b h k = let (p, q) = zeros in rw (p, q) (omega (arith, bit_or-zero_both))
  where
    zeros : (a ≡ 0) × (b ≡ 0)
    zeros = omega arith
bit_or-lt (suc w) a b h k = omega (
  arith,
  pow-suc 2 w,
  bit_or_step a b,
  bit_or-lt w (a / 2) (b / 2) (omega (arith, pow-suc 2 w)) (omega (arith, pow-suc 2 w)),
)

bit_and-zero_right : (n a : ℕ) → a ≤ n → bit_and a 0 ≡ 0
bit_and-zero_right n zero h = bit_and-zero_left 0
bit_and-zero_right zero (suc a) h = absurd (omega arith)
bit_and-zero_right (suc n) (suc a) h =
    omega (arith, bit_and_step (suc a) 0, bit_and-zero_right n (suc a / 2) (omega arith))

-- A mask of `w` ones keeps the part of the number below `2 ^ w`.
mask_keeps : (w q r : ℕ) → r < 2 ^ w → bit_and (q * 2 ^ w + r) (2 ^ w - 1) ≡ r
mask_keeps zero q r h =
    omega (arith, bit_and-zero_right (q * 2 ^ 0 + r) (q * 2 ^ 0 + r) (omega arith))
mask_keeps (suc w) q r h =
    let double : q * 2 ^ suc w ≡ 2 * (q * 2 ^ w) =
      omega (arith, ap (λ (t : ℕ). q * t) (pow-suc 2 w)) in
    let number : (q * 2 ^ suc w + r) / 2 ≡ q * 2 ^ w + r / 2 = omega (arith, double) in
    let mask : (2 ^ suc w - 1) / 2 ≡ 2 ^ w - 1 = omega (arith, pow-suc 2 w) in
    let rest : bit_and ((q * 2 ^ suc w + r) / 2) ((2 ^ suc w - 1) / 2) ≡ r / 2 =
      rw (number, mask) (mask_keeps w q (r / 2) (omega (arith, pow-suc 2 w))) in
    omega (arith, pow-suc 2 w, double, rest, bit_and_step (q * 2 ^ suc w + r) (2 ^ suc w - 1))

pub bit_and_mask : (w a : ℕ) → bit_and a (2 ^ w - 1) ≡ a % 2 ^ w
bit_and_mask w a =
    let parts : a / 2 ^ w * 2 ^ w + a % 2 ^ w ≡ a = grind (arith, one-le-pow w 2) in
    ap (λ (t : ℕ). bit_and t (2 ^ w - 1)) (sym parts)
    ∙ mask_keeps w (a / 2 ^ w) (a % 2 ^ w) (grind (arith, one-le-pow w 2))

le-bit_or_fuel : (n a b : ℕ) → a ≤ n → a ≤ bit_or a b
le-bit_or_fuel n zero b h = omega arith
le-bit_or_fuel zero (suc a) b h = absurd (omega arith)
le-bit_or_fuel (suc n) (suc a) b h =
    omega (arith, bit_or_step (suc a) b, le-bit_or_fuel n (suc a / 2) (b / 2) (omega arith))

pub le-bit_or : (a b : ℕ) → a ≤ bit_or a b
le-bit_or a b = le-bit_or_fuel a a b (omega arith)

-- `a & ~3u`, where `~3u` is 32 bits wide: the low two bits and all above bit 31 are cleared.
pub bit_and-align : (a : ℕ) → bit_and a 0xFFFFFFFC ≡ a % 2 ^ 32 / 4 * 4
bit_and-align a =
    omega (
      arith,
      bit_and_step a 0xFFFFFFFC,
      bit_and_step (a / 2) 0x7FFFFFFE,
      bit_and_mask 30 (a / 2 / 2),
    )

bit_or-zero_right : (n a : ℕ) → a ≤ n → bit_or a 0 ≡ a
bit_or-zero_right n zero h = refl
bit_or-zero_right zero (suc a) h = absurd (omega arith)
bit_or-zero_right (suc n) (suc a) h =
    omega (arith, bit_or_step (suc a) 0, bit_or-zero_right n (suc a / 2) (omega arith))

-- `hi << 8 | lo` has `hi` above its low byte.
pub bit_or-high : (hi lo : ℕ) → lo < 2 ^ 8 → bit_or (hi * 2 ^ 8) lo / 2 ^ 8 ≡ hi
bit_or-high hi lo h =
    let a1 : ℕ = hi * 2 ^ 8 / 2 in
    let a2 : ℕ = a1 / 2 in
    let a3 : ℕ = a2 / 2 in
    let a4 : ℕ = a3 / 2 in
    let a5 : ℕ = a4 / 2 in
    let a6 : ℕ = a5 / 2 in
    let a7 : ℕ = a6 / 2 in
    let b1 : ℕ = lo / 2 in
    let b2 : ℕ = b1 / 2 in
    let b3 : ℕ = b2 / 2 in
    let b4 : ℕ = b3 / 2 in
    let b5 : ℕ = b4 / 2 in
    let b6 : ℕ = b5 / 2 in
    let b7 : ℕ = b6 / 2 in
    let top : bit_or (a7 / 2) (b7 / 2) ≡ hi =
      ap₂ bit_or (omega arith) (omega arith) ∙ bit_or-zero_right hi hi (omega arith) in
    omega (
      arith,
      top,
      bit_or_half (hi * 2 ^ 8) lo,
      bit_or_half a1 b1,
      bit_or_half a2 b2,
      bit_or_half a3 b3,
      bit_or_half a4 b4,
      bit_or_half a5 b5,
      bit_or_half a6 b6,
      bit_or_half a7 b7,
    )
