-- ===== src/Utils/Hex.antt =====
-- lib/borderrouter/src/utils/hex.cpp. A C string is the list of its bytes before the final zero.
pub mod RoundTrip
pub mod Bounds
use commissioner.Prelude.{
  ℕ, zero, suc, ◌+◌, ◌-◌, ◌*◌, ◌/◌, ◌%◌, ◌^◌, Bool, ◌&&◌, Option, none, some, List, [], ◌∷◌, ◌++◌,
  bit_and, bit_or, leb, ltb, if◌then◌else◌, length,
}

-- The value of one character; `none` is the `else` branch, which returns -1.
unfoldable pub digit_value : ℕ → Option ℕ
digit_value c =
    if leb b'A' c && leb c b'F'
    then some (10 + (c - b'A'))
    else if leb b'a' c && leb c b'f'
    then some (10 + (c - b'a'))
    else if leb b'0' c && leb c b'9'
    then some (c - b'0')
    else none

-- What the function returns (`none` is -1) and the bytes that it has stored through `cur`.
pub record Decoded : Type 0 where
  pub ret : Option ℕ
  pub stored : List ℕ

-- The loop, with the locals `numChars` and `byte` and the bytes stored so far.
pub decode_loop : List ℕ → ℕ → ℕ → List ℕ → Decoded
decode_loop [] num_chars byte out = record { ret = some (length out); stored = out }
decode_loop (c ∷ hex) num_chars byte out =
    let full = λ (v : ℕ). decode_loop hex 0 0 (out ++ bit_or byte v ∷ []) in
    let half = λ (v : ℕ). decode_loop hex (num_chars + 1) (bit_or byte v * 2 ^ 4 % 2 ^ 8) out in
    elim (digit_value c) [
      | none ↦ record { ret = none; stored = out }
      | some v ↦ if leb 2 (num_chars + 1) then full v else half v
    ]

unfoldable pub hex2bytes : List ℕ → ℕ → Decoded
unfolding decode_loop
hex2bytes hex bytes_length =
    if ltb bytes_length ((length hex + 1) / 2)
    then record { ret = none; stored = [] }
    else decode_loop hex (bit_and (length hex) 1) 0 []

-- One digit as `sprintf` prints it under `%X`.
pub hex_digit : ℕ → ℕ
hex_digit d = if ltb d 10 then b'0' + d else b'A' + (d - 10)

-- `sprintf(byteHex, "%02X", byte)`.
pub byte_hex : ℕ → List ℕ
unfolding hex_digit
byte_hex b = hex_digit (b / 16) ∷ hex_digit (b % 16) ∷ []

unfoldable pub bytes2hex : List ℕ → List ℕ
unfolding byte_hex
bytes2hex [] = []
bytes2hex (b ∷ bytes) = byte_hex b ++ bytes2hex bytes

-- The loop over the eight bytes of a `uint64_t`, lowest first.
pub long_loop : ℕ → ℕ → List ℕ
unfolding byte_hex
long_loop zero long_value = []
long_loop (suc left) long_value =
    byte_hex (bit_and long_value 0xff) ++ long_loop left (long_value / 2 ^ 8)

unfoldable pub long2hex : ℕ → List ℕ
unfolding long_loop
long2hex along = long_loop 8 along
