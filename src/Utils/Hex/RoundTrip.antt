-- ===== src/Utils/Hex/RoundTrip.antt =====
-- hex.cpp: printing bytes and reading them back.
use mathlib.Core.List.{append_assoc, append-nil}
use commissioner.Prelude.{
  ℕ, zero, suc, ◌*◌, ◌/◌, ◌%◌, ◌≤◌, ◌<◌, ◌≡◌, refl, ap, ◌∙◌, some, List, [], ◌∷◌, ◌++◌, arith,
  length, All, bit_and,
}
use commissioner.Prelude.Bits.{bit_or_fields, bit_and_mask}
use commissioner.Utils.Hex.{
  digit_value, decode_loop, hex2bytes, hex_digit, byte_hex, bytes2hex, long_loop, long2hex,
}

pub digit_value-hex_digit : (d : ℕ) → d < 16 → digit_value (hex_digit d) ≡ some d
unfolding digit_value hex_digit
digit_value-hex_digit d h = ground arith

-- One printed byte is read by two rounds of the loop.
decode_loop-byte_hex :
    (b : ℕ) (hex out : List ℕ)
    → b < 256
    → decode_loop (byte_hex b ++ hex) 0 0 out ≡ decode_loop hex 0 0 (out ++ b ∷ [])
unfolding decode_loop byte_hex
decode_loop-byte_hex b hex out h = ground (
  arith,
  digit_value-hex_digit (b / 16),
  digit_value-hex_digit (b % 16),
  bit_or_fields 4 0 (b / 16),
  bit_or_fields 4 (b / 16) (b % 16),
)

decode_loop-bytes2hex :
    (bytes out : List ℕ)
    → All (λ b. b < 256) bytes
    → decode_loop (bytes2hex bytes) 0 0 out
      ≡ record { ret = some (length (out ++ bytes)); stored = out ++ bytes }
unfolding bytes2hex
decode_loop-bytes2hex [] out h = unfold decode_loop in rw (append-nil out)
decode_loop-bytes2hex (b ∷ bytes) out h =
    decode_loop-byte_hex b (bytes2hex bytes) out h.0
    ∙ decode_loop-bytes2hex bytes (out ++ b ∷ []) h.1
    ∙ rw (append_assoc out (b ∷ []) bytes)

pub length-bytes2hex : (bytes : List ℕ) → length (bytes2hex bytes) ≡ 2 * length bytes
unfolding bytes2hex
length-bytes2hex [] = refl
length-bytes2hex (b ∷ bytes) = omega (arith, length-bytes2hex bytes)

-- Reading back the hexadecimal text of some bytes gives those bytes and their number, into any
-- buffer that holds them.
pub hex2bytes-bytes2hex :
    (bytes : List ℕ) (bytes_length : ℕ)
    → All (λ b. b < 256) bytes
    → length bytes ≤ bytes_length
    → hex2bytes (bytes2hex bytes) bytes_length
      ≡ record { ret = some (length bytes); stored = bytes }
unfolding hex2bytes
hex2bytes-bytes2hex bytes bytes_length h fits =
    let even : bit_and (length (bytes2hex bytes)) 1 ≡ 0 =
      omega (arith, bit_and_mask 1 (length (bytes2hex bytes)), length-bytes2hex bytes) in
    ground (arith, even, length-bytes2hex bytes, decode_loop-bytes2hex bytes [] h)

-- The eight bytes of a number, lowest first.
abbrev pub little_endian : ℕ → ℕ → List ℕ
little_endian zero n = []
little_endian (suc left) n = (n % 256) ∷ little_endian left (n / 256)

long_loop-bytes2hex : (left n : ℕ) → long_loop left n ≡ bytes2hex (little_endian left n)
unfolding long_loop bytes2hex
long_loop-bytes2hex zero n = refl
long_loop-bytes2hex (suc left) n =
    rw (bit_and_mask 8 n) (ap (◌++◌ (byte_hex (n % 256))) (long_loop-bytes2hex left (n / 256)))

All-little_endian : (left n : ℕ) → All (λ b. b < 256) (little_endian left n)
All-little_endian zero n = tt
All-little_endian (suc left) n = (omega arith, All-little_endian left (n / 256))

-- `Long2Hex` prints the bytes of its number lowest first, so that `Hex2Bytes` reads them back
-- in that order.
pub hex2bytes-long2hex :
    (n : ℕ) → hex2bytes (long2hex n) 8 ≡ record { ret = some 8; stored = little_endian 8 n }
unfolding long2hex
hex2bytes-long2hex n =
    rw (long_loop-bytes2hex 8 n)
      (hex2bytes-bytes2hex (little_endian 8 n) 8 (All-little_endian 8 n) (omega arith))
