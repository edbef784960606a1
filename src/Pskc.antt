-- ===== src/Pskc.antt =====
-- lib/borderrouter/src/web/pskc-generator/pskc.cpp: the key of the commissioner, from the name and the
-- extended PAN ID of the network and the pass phrase. `prf` is `mbedtls_aes_cmac_prf_128`, of the pass
-- phrase and an input; a block of its cipher has 16 bytes. The macro OT_ITERATION_COUNTS, 16384, is the
-- argument `iterations`.
pub mod Derivation
pub mod Overflow
use commissioner.Prelude.{
  ℕ, zero, suc, ◌+◌, ◌-◌, ◌*◌, ◌/◌, ◌%◌, ◌^◌, Bool, Option, none, some, List, [], ◌∷◌, ◌++◌, ltb,
  ◌==◌, if◌then◌else◌, length, take, drop, replicate, bit_xor,
}
use commissioner.Prelude.Chain.{◌>>=◌}
use commissioner.Common.Tlv.{store, load}

pub record Pskc : Type 0 where
  pub salt : List ℕ
  pub salt_len : ℕ
  pub pskc : List ℕ

abbrev pub salt_prefix : List ℕ
salt_prefix = b'T' ∷ b'h' ∷ b'r' ∷ b'e' ∷ b'a' ∷ b'd' ∷ []

-- With an empty name the length of the salt stays as it was. `none` is a read or a write beyond an
-- array.
unfoldable pub set_salt : Pskc → List ℕ → List ℕ → Option Pskc
set_salt p ext_pan_id network_name = store (replicate 30 0) 0 salt_prefix >>= λ salt.
    load ext_pan_id 0 8 >>= λ id. store salt 6 id >>= λ salt'.
    if length network_name == 0
    then some (record p { salt = salt' })
    else (store salt' 14 network_name >>= λ salt''.
        some (record p { salt = salt''; salt_len = 14 + length network_name }))

-- `keyBlock[j] ^= prfOutput[j]`.
abbrev pub xor_block : List ℕ → List ℕ → List ℕ
xor_block [] out = []
xor_block (k ∷ key) [] = k ∷ key
xor_block (k ∷ key) (o ∷ out) = bit_xor k o ∷ xor_block key out

-- The four bytes of the block's counter, highest first.
abbrev pub counter_bytes : ℕ → List ℕ
counter_bytes n = (n / 2 ^ 24 % 256) ∷ (n / 2 ^ 16 % 256) ∷ (n / 2 ^ 8 % 256) ∷ (n % 256) ∷ []

module _ (prf : List ℕ → List ℕ → List ℕ) (iterations : ℕ) where
  -- The loop over `i`, with the rounds that are left.
  unfoldable pub iterate : ℕ → List ℕ → List ℕ → List ℕ → List ℕ
  iterate zero passphrase prf_output key_block = key_block
  iterate (suc left) passphrase prf_output key_block =
      let out = prf passphrase prf_output in iterate left passphrase out (xor_block key_block out)

  -- One block of the key.
  unfoldable pub make_block : List ℕ → ℕ → List ℕ → List ℕ
  make_block salt counter passphrase =
      let out = prf passphrase (salt ++ counter_bytes counter) in
      iterate (iterations - 1) passphrase out out

  -- The loop while `keyLen` is not 0, with fuel.
  unfoldable pub blocks : ℕ → List ℕ → List ℕ → ℕ → ℕ → List ℕ → Option (List ℕ)
  blocks zero salt passphrase key_len counter pskc = none
  blocks (suc fuel) salt passphrase key_len counter pskc =
      let use_len = if ltb key_len 16 then key_len else 16 in
      let rest =
        blocks fuel salt passphrase (key_len - use_len) (counter + 1)
          (pskc ++ take use_len (make_block salt (counter + 1) passphrase)) in
      if key_len == 0 then some pskc else rest

  -- A key of 16 bytes takes one round and the last test.
  unfoldable pub compute_pskc : Pskc → List ℕ → List ℕ → List ℕ → Option Pskc
  compute_pskc p ext_pan_id network_name passphrase = set_salt p ext_pan_id network_name >>= λ p'.
      load p'.salt 0 p'.salt_len >>= λ salt.
      blocks 2 salt passphrase 16 0 [] >>= λ key. some (record p' { pskc = key })
