-- ===== src/Utils/Hex/Bounds.antt =====
-- hex.cpp: how much is stored, and when the text is refused.
use commissioner.Prelude.{
  ℕ, ◌+◌, ◌*◌, ◌/◌, ◌%◌, ◌^◌, ◌≤◌, ◌<◌, ◌≡◌, ◌↔◌, ◌⊎◌, inl, inr, none, some, List, [], ◌∷◌, ◌++◌,
  arith, length, All, bit_or, length-append, All-append, bit_and, Option-cases,
}
use commissioner.Prelude.Bits.{bit_or-lt, bit_and_mask}
use commissioner.Utils.Hex.{Decoded, digit_value, decode_loop, hex2bytes}

-- The characters of a hexadecimal number.
abbrev pub IsHexDigit : ℕ → Type 0
IsHexDigit c = ((b'0' ≤ c) × (c ≤ b'9')) ⊎ ((b'A' ≤ c) × (c ≤ b'F')) ⊎ ((b'a' ≤ c) × (c ≤ b'f'))

abbrev pub IsHexText : List ℕ → Type 0
IsHexText = All IsHexDigit

digit_value-IsHexDigit : (c v : ℕ) → digit_value c ≡ some v → IsHexDigit c × (v < 16)
unfolding digit_value
digit_value-IsHexDigit c v h = ground arith

digit_value-none : (c : ℕ) → digit_value c ≡ none → ¬ IsHexDigit c
unfolding digit_value
digit_value-none c h = ground arith

-- How the loop ends: with all bytes stored, or at a character that is none of the digits.
abbrev pub Ends : List ℕ → ℕ → Decoded → Type 0
Ends hex total d =
    (IsHexText hex × (d.ret ≡ some total) × (length d.stored ≡ total))
    ⊎ ((¬ IsHexText hex) × (d.ret ≡ none) × (length d.stored ≤ total))

decode_loop-Ends :
    (hex : List ℕ) (num_chars byte : ℕ) (out : List ℕ)
    → num_chars < 2
    → Ends hex (length out + (length hex + num_chars) / 2) (decode_loop hex num_chars byte out)
unfolding decode_loop
decode_loop-Ends [] num_chars byte out h = ground arith
decode_loop-Ends (c ∷ hex) num_chars byte out h = elim (Option-cases (digit_value c)) [
  | inl e ↦ ground (arith, digit_value-none c e)
  | inr (v, e) ↦ ground (
    arith,
    digit_value-IsHexDigit c v e,
    length-append out (bit_or byte v ∷ []),
    decode_loop-Ends hex 0 0 (out ++ bit_or byte v ∷ []),
    decode_loop-Ends hex (num_chars + 1) (bit_or byte v * 2 ^ 4 % 2 ^ 8) out,
  )
]

decode_loop-bytes :
    (hex : List ℕ) (num_chars byte : ℕ) (out : List ℕ)
    → byte < 256
    → All (λ b. b < 256) out
    → All (λ b. b < 256) (decode_loop hex num_chars byte out).stored
unfolding decode_loop
decode_loop-bytes [] num_chars byte out hb h = h
decode_loop-bytes (c ∷ hex) num_chars byte out hb h = elim (Option-cases (digit_value c)) [
  | inl e ↦ ground (arith, e)
  | inr (v, e) ↦
      let small : bit_or byte v < 256 =
        bit_or-lt 8 byte v hb (omega (arith, digit_value-IsHexDigit c v e)) in
      ground (
        arith,
        e,
        decode_loop-bytes hex 0 0 (out ++ bit_or byte v ∷ []) (omega arith)
            (All-append (λ b. b < 256) out (bit_or byte v ∷ []) h (small, tt)),
        decode_loop-bytes hex (num_chars + 1) (bit_or byte v * 2 ^ 4 % 2 ^ 8) out (omega arith) h,
      )
]

-- A text is decoded exactly when it holds hexadecimal digits only and its bytes fit the buffer;
-- then the count of bytes is half the digits, rounded up. In every other case the result is -1.
pub hex2bytes_iff :
    (hex : List ℕ) (bytes_length : ℕ)
    → let d = hex2bytes hex bytes_length in
      let total = (length hex + 1) / 2 in
      ((d.ret ≡ some total) ↔ (IsHexText hex × (total ≤ bytes_length)))
      × ((d.ret ≡ none) ⊎ (d.ret ≡ some total))
unfolding hex2bytes
hex2bytes_iff hex bytes_length =
    ground (arith, bit_and_mask 1 (length hex), decode_loop-Ends hex (bit_and (length hex) 1) 0 [])

-- The stores stay within the buffer, also where the text turns out to be bad, and every stored
-- value is a byte.
pub hex2bytes-stored :
    (hex : List ℕ) (bytes_length : ℕ)
    → let d = hex2bytes hex bytes_length in
      (length d.stored ≤ bytes_length) × All (λ b. b < 256) d.stored
unfolding hex2bytes
hex2bytes-stored hex bytes_length = ground (
  arith,
  bit_and_mask 1 (length hex),
  decode_loop-Ends hex (bit_and (length hex) 1) 0 [],
  decode_loop-bytes hex (bit_and (length hex) 1) 0 [] (omega arith) tt,
)
