-- ===== src/Csv/Hex.antt =====
-- `hex_decode` of agents/linux/csv_attestation.c reads what `%02x` prints, in either case of the digits.
use tlslatch.Base.{
  ℕ, ◌+◌, ◌*◌, ◌/◌, ◌%◌, ◌<◌, List, [], ◌∷◌, some, Bool, if◌then◌else◌, length, ◌≡◌, refl, arith,
  ltb,
}
use tlslatch.Csv.{hex_value, hex_bytes, hex_decode}

-- A digit below 16, in lower case or in upper case.
abbrev pub hex_digit : Bool → ℕ → ℕ
hex_digit upper d = if ltb d 10 then 0x30 + d else if upper then 0x37 + d else 0x57 + d

hex_value-hex_digit : (upper : Bool) (d : ℕ) → d < 16 → hex_value (hex_digit upper d) ≡ some d
unfolding hex_value
hex_value-hex_digit upper d h = ground arith

-- The bytes as text, each with the case of its digits.
abbrev pub put_hex : List (Bool × ℕ) → List ℕ
put_hex [] = []
put_hex ((upper, b) ∷ bytes) = hex_digit upper (b / 16) ∷ hex_digit upper (b % 16) ∷ put_hex bytes

abbrev pub bytes_of : List (Bool × ℕ) → List ℕ
bytes_of [] = []
bytes_of ((upper, b) ∷ bytes) = b ∷ bytes_of bytes

abbrev pub AllBytes : List (Bool × ℕ) → Type 0
AllBytes [] = Unit
AllBytes ((upper, b) ∷ bytes) = (b < 256) × AllBytes bytes

-- The text of some bytes, two hexadecimal digits of either case for each, is decoded to the bytes.
hex_decode-put_hex :
    (bytes : List (Bool × ℕ))
    → AllBytes bytes
    → hex_decode (some (put_hex bytes)) (length bytes) ≡ some (bytes_of bytes)
unfolding hex_decode hex_bytes
hex_decode-put_hex [] h = refl
hex_decode-put_hex ((upper, b) ∷ bytes) (l, h) =
    let joined : 16 * (b / 16) + b % 16 ≡ b = omega arith in
    rw
      (
        hex_value-hex_digit upper (b / 16) (omega arith),
        hex_value-hex_digit upper (b % 16) (omega arith),
        hex_decode-put_hex bytes h,
        joined,
      )
      refl
