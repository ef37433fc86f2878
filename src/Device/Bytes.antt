-- ===== src/Device/Bytes.antt =====
-- src/usb3_device_controller.cpp: what bytes and packets are, and the constant responses.
use usb3_otg.Base.{
  ℕ, suc, zero, ◌^◌, ◌<◌, ◌≡◌, refl, sym, Bool, true, false, Option, none, some, List, [], ◌∷◌,
  ◌++◌, arith, length, take, replicate, if_both, Bool-cases, inl, inr, ◌==◌, ltb, if◌then◌else◌,
  ltb→lt, if_true, if_false, ◌∙◌,
}
use usb3_otg.Types.{PktExt}
use usb3_otg.Types.Tlm.{Trans, buffer}
use usb3_otg.Device.{fit, string_descriptor}

abbrev pub IsBytes : List ℕ → Type 0
IsBytes [] = Unit {0}
IsBytes (b ∷ bs) = (b < 2 ^ 8) × IsBytes bs

abbrev pub are_bytes : List ℕ → Bool
are_bytes [] = true
are_bytes (b ∷ bs) = let rest = are_bytes bs in if ltb b 256 then rest else false

-- What a run of the test shows.
pub are_bytes-IsBytes : (bs : List ℕ) → are_bytes bs ≡ true → IsBytes bs
are_bytes-IsBytes [] h = tt
are_bytes-IsBytes (b ∷ bs) h = elim (Bool-cases (ltb b 256)) [
  | inl e ↦ (ltb→lt b 256 e, are_bytes-IsBytes bs (sym (if_true (are_bytes bs) false e) ∙ h))
  | inr e ↦ absurd (false_ne (sym (if_false (are_bytes bs) false e) ∙ h))
]
  where
    false_ne : false ≡ true → ⊥
    false_ne q = cc

pub IsBytes-take : (n : ℕ) (bs : List ℕ) → IsBytes bs → IsBytes (take n bs)
IsBytes-take zero bs h = tt
IsBytes-take (suc n) [] h = tt
IsBytes-take (suc n) (b ∷ bs) h = (h.0, IsBytes-take n bs h.1)

-- A packet as the code's types have it: bytes, a length that is the buffer's, and an extension with a
-- seven-bit address and a four-bit endpoint.
abbrev pub IsHeader : Option PktExt → Type 0
IsHeader none = ⊥
IsHeader (some ext) = (ext.dev_addr < 2 ^ 7) × (ext.endpoint < 2 ^ 4)

pub record IsPacket (t : Trans) : Type 0 where
  pub sized : t.data_length ≡ length (buffer t.data_ptr)
  pub bytes : IsBytes (buffer t.data_ptr)
  pub header : IsHeader t.ext

abbrev pub ArePackets : List Trans → Type 0
ArePackets [] = Unit {0}
ArePackets (t ∷ ts) = IsPacket t × ArePackets ts

pub ArePackets-snoc :
    (ts : List Trans) (t : Trans) → ArePackets ts → IsPacket t → ArePackets (ts ++ t ∷ [])
ArePackets-snoc [] t h p = (p, tt)
ArePackets-snoc (u ∷ ts) t h p = (h.0, ArePackets-snoc ts t h.1 p)

pub IsBytes-fit : (n : ℕ) (bs : List ℕ) → IsBytes bs → IsBytes (fit n bs)
unfolding fit
IsBytes-fit n bs h = if_both IsBytes (ltb n (length bs)) (IsBytes-take n bs h) h

pub IsBytes-string_descriptor : (i : ℕ) → IsBytes (string_descriptor i)
unfolding string_descriptor
IsBytes-string_descriptor i = are_bytes-IsBytes (string_descriptor i) (
    if_both P (i == 0) refl
      (if_both P (i == 1) refl (if_both P (i == 2) refl (if_both P (i == 3) refl refl))))
  where
    P : List ℕ → Type 0
    P bs = are_bytes bs ≡ true

pub IsBytes-zeros : (n : ℕ) → IsBytes (replicate n 0)
IsBytes-zeros zero = tt
IsBytes-zeros (suc n) = (omega arith, IsBytes-zeros n)

-- A response that is there is of bytes.
abbrev pub OfBytes : Option (List ℕ) → Type 0
OfBytes none = Unit {0}
OfBytes (some bs) = IsBytes bs
