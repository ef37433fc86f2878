-- ===== src/Device/Strings.antt =====
-- src/usb3_device_controller.cpp, `handle_get_descriptor`: the BOS and string descriptors, and the cut
-- to the length that was asked for.
use Prim.Native.Char.{code}
use Prim.Native.String.{String}
use usb3_otg.Base.{ℕ, ◌+◌, ◌*◌, List, [], ◌∷◌, length, take, u8, ltb, ◌==◌, if◌then◌else◌}

-- `if (resp_data.size() > wLength) resp_data.resize(wLength)`.
unfoldable pub fit : ℕ → List ℕ → List ℕ
fit len bytes = if ltb len (length bytes) then take len bytes else bytes

abbrev pub bos : List ℕ
bos =
    0x05 ∷ 0x0F ∷ 0x16 ∷ 0x00 ∷ 0x01 ∷ 0x0A ∷ 0x10 ∷ 0x03 ∷ 0x00 ∷ 0x0E ∷ 0x00 ∷ 0x01 ∷ 0x0A ∷ 0xFF
    ∷ 0x07 ∷ []

-- The bytes of an ASCII text.
abbrev pub chars : String → List ℕ
chars String.[] = []
chars (String.◌∷◌ c s) = code c ∷ chars s

abbrev pub wide : List ℕ → List ℕ
wide [] = []
wide (c ∷ cs) = c ∷ 0x00 ∷ wide cs

-- A string descriptor: its length, its type, and the text in two bytes a character.
abbrev pub text_descriptor : List ℕ → List ℕ
text_descriptor text = u8 (2 + length text * 2) ∷ 0x03 ∷ wide text

unfoldable pub string_descriptor : ℕ → List ℕ
string_descriptor index =
    if index == 0
    then 0x04 ∷ 0x03 ∷ 0x09 ∷ 0x04 ∷ []
    else if index == 1
    then text_descriptor (chars "MyVendor")
    else if index == 2
    then text_descriptor (chars "USB3 DRD")
    else if index == 3
    then text_descriptor (chars "SN-001")
    else []
