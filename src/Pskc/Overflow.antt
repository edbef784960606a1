-- ===== src/Pskc/Overflow.antt =====
-- pskc.cpp: the copy of the network's name into the array of the salt.
use commissioner.Prelude.{
  ℕ, ◌≡◌, ◌<◌, refl, ◌∙◌, false, Option, none, List, arith, length, replicate, ◌==◌,
}
use commissioner.Prelude.Yields.{Yields, nothing, gives, Yields-bind, Yields-after}
use commissioner.Common.Tlv.{load}
use commissioner.Common.Tlv.Store.{store_full, Yields-store}
use commissioner.Pskc.{Pskc, set_salt, compute_pskc, salt_prefix}

never {ℓ} : {A : Type ℓ} {m : Option A} → Yields (λ x. ⊥) m → m ≡ none
never nothing = refl
never (gives bad) = absurd bad

-- The array of the salt has 30 bytes, and the name is copied behind the first 14.
no_salt :
    (p : Pskc) (ext_pan_id network_name : List ℕ)
    → 16 < length network_name
    → Yields (λ q. ⊥) (set_salt p ext_pan_id network_name)
unfolding set_salt
no_salt p ext_pan_id network_name h =
    Yields-after (Yields-store (replicate 30 0) 0 salt_prefix) (λ salt e.
      Yields-bind (load ext_pan_id 0 8) (λ id. Yields-after (Yields-store salt 6 id) (λ salt' e'.
        let size : length salt' ≡ 30 = e' ∙ e in
        let full = store_full salt' 14 network_name (omega (arith, size, h)) in
        let named : (length network_name == 0) ≡ false = ground (arith, h) in
        rw (named, full) nothing)))

module _ (prf : List ℕ → List ℕ → List ℕ) (iterations : ℕ) where
  pub compute_pskc_overflow :
      (p : Pskc) (ext_pan_id network_name passphrase : List ℕ)
      → 16 < length network_name
      → compute_pskc prf iterations p ext_pan_id network_name passphrase ≡ none
  unfolding compute_pskc
  compute_pskc_overflow p ext_pan_id network_name passphrase h =
      rw (never (no_salt p ext_pan_id network_name h)) refl
