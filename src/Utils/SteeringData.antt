-- ===== src/Utils/SteeringData.antt =====
-- lib/borderrouter/src/utils/steering_data.cpp and steering_data.hpp, and the functions of
-- commissioner/device_hash.cpp that fill the filter. SHA-256 is a parameter: from a message to
-- the 32 bytes of its hash. `none` is a failed assertion, a division by zero or a write outside
-- the array.
pub mod Filter
use commissioner.Prelude.{
  ℕ, ◌+◌, ◌-◌, ◌*◌, ◌/◌, ◌%◌, ◌^◌, Bool, true, false, Option, none, some, List, [], ◌∷◌, ◌&&◌,
  bit_or, ltb, leb, ◌==◌, if◌then◌else◌, get_or, set, take, replicate,
}
use commissioner.Prelude.Chain.{◌>>=◌}
use commissioner.Utils.Crc16.{ccitt, ansi}
use commissioner.Utils.Crc16

abbrev pub max_size_of_bloom_filter : ℕ
max_size_of_bloom_filter = 16

abbrev pub size_joiner_id : ℕ
size_joiner_id = 8

pub record SteeringData : Type 0 where
  pub bloom_filter : List ℕ
  pub filter_length : ℕ

unfoldable pub clear : SteeringData → SteeringData
clear s = record s { bloom_filter = replicate max_size_of_bloom_filter 0 }

unfoldable pub set_all : SteeringData → SteeringData
set_all s = record s { bloom_filter = replicate max_size_of_bloom_filter 0xff }

unfoldable pub init : SteeringData → ℕ → Option SteeringData
unfolding clear
init s len =
    if leb len max_size_of_bloom_filter
    then some (clear (record s { filter_length = len }))
    else none

-- `mBloomFilter[mLength - 1 - (aBit / 8)] |= 1 << (aBit % 8)`, where the argument is a `uint8_t`.
unfoldable pub set_bit : SteeringData → ℕ → Option SteeringData
set_bit s abit =
    let i = s.filter_length - 1 - abit % 2 ^ 8 / 8 in
    if ltb (abit % 2 ^ 8 / 8) s.filter_length && ltb i max_size_of_bloom_filter
    then some (record s {
      bloom_filter =
          set s.bloom_filter i
            (bit_or (get_or s.bloom_filter i 0) (2 ^ (abit % 2 ^ 8 % 8)) % 2 ^ 8);
    })
    else none

-- The two checksums of a joiner id.
pub ccitt_of : List ℕ → ℕ
ccitt_of id = Crc16.get (Crc16.feed (Crc16.make ccitt) (take size_joiner_id id))

pub ansi_of : List ℕ → ℕ
ansi_of id = Crc16.get (Crc16.feed (Crc16.make ansi) (take size_joiner_id id))

unfoldable pub compute_bloom_filter : SteeringData → List ℕ → Option SteeringData
unfolding set_bit
compute_bloom_filter s joiner_id =
    let num_bits = s.filter_length * 8 in
    if num_bits == 0
    then none
    else set_bit s (ccitt_of joiner_id % num_bits) >>= λ s'.
        set_bit s' (ansi_of joiner_id % num_bits)

-- The first eight bytes of the hash, with the local bit of the first one set.
unfoldable pub mark_local : List ℕ → List ℕ
mark_local [] = []
mark_local (b ∷ bytes) = bit_or b 2 ∷ bytes

module _ (sha256 : List ℕ → List ℕ) where
  unfoldable pub compute_joiner_id : List ℕ → List ℕ
  unfolding mark_local
  compute_joiner_id eui64 = mark_local (take size_joiner_id (sha256 (take 8 eui64)))

  unfoldable pub compute_hash_mac : List ℕ → List ℕ
  unfolding mark_local
  compute_hash_mac eui64 = mark_local (take 8 (sha256 (take 8 eui64)))

  unfoldable pub compute_steering_data : SteeringData → Bool → List ℕ → Option SteeringData
  unfolding set_all compute_hash_mac compute_bloom_filter
  compute_steering_data s allow_any eui64 =
      if allow_any then some (set_all s) else compute_bloom_filter s (compute_hash_mac eui64)
