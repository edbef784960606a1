-- ===== src/Utils/Crc16.antt =====
-- lib/borderrouter/src/utils/crc16.cpp and crc16.hpp.
pub mod Laws
use commissioner.Prelude.{
  ℕ, zero, suc, ◌*◌, ◌%◌, ◌^◌, List, [], ◌∷◌, bit_and, bit_xor, ◌==◌, if◌then◌else◌,
}

pub data Polynomial : Type 0 where
  ccitt ansi : Polynomial

pub polynomial_value : Polynomial → ℕ
polynomial_value ccitt = 0x1021
polynomial_value ansi = 0x8005

pub record Crc16 : Type 0 where
  pub polynomial : ℕ
  pub crc : ℕ

unfoldable pub init : Crc16 → Crc16
init c = record c { crc = 0 }

unfoldable pub make : Polynomial → Crc16
unfolding init polynomial_value
make p = init (record { polynomial = polynomial_value p; crc = 0 })

-- One round of the loop of `Update`, on `mCrc`.
pub shift_bit : ℕ → ℕ → ℕ
shift_bit polynomial crc =
    if bit_and crc 0x8000 == 0 then crc * 2 % 2 ^ 16 else bit_xor (crc * 2 % 2 ^ 16) polynomial

-- `do … while (--i)`.
pub shift_bits : ℕ → ℕ → ℕ → ℕ
unfolding shift_bit
shift_bits zero polynomial crc = crc
shift_bits (suc i) polynomial crc = shift_bits i polynomial (shift_bit polynomial crc)

unfoldable pub update : Crc16 → ℕ → Crc16
unfolding shift_bits
update c byte = record c { crc = shift_bits 8 c.polynomial (bit_xor c.crc (byte * 2 ^ 8 % 2 ^ 16)) }

-- A caller's loop over the bytes of a message.
unfoldable pub feed : Crc16 → List ℕ → Crc16
unfolding update
feed c [] = c
feed c (byte ∷ bytes) = feed (update c byte) bytes

unfoldable pub get : Crc16 → ℕ
get c = c.crc
