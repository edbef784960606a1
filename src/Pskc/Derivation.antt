-- ===== src/Pskc/Derivation.antt =====
-- pskc.cpp, and the first block of PBKDF2 (RFC 8018, 5.2).
use commissioner.Prelude.{
  ℕ, zero, suc, ◌+◌, ◌-◌, ◌≤◌, ◌≡◌, refl, sym, ap, ◌∙◌, some, List, [], ◌∷◌, ◌++◌, arith, length,
  take, drop, replicate, length-append, take-length-append,
}
use mathlib.Core.List.{append_assoc}
use commissioner.Common.Tlv.{store, load}
use commissioner.Common.Tlv.Layout.{store_here, store-append}
use commissioner.Pskc.{
  Pskc, salt_prefix, set_salt, xor_block, counter_bytes, iterate, make_block, blocks, compute_pskc,
}

module _ (prf : List ℕ → List ℕ → List ℕ) where
  -- U_1, U_2, ... of a pass phrase and the salt with the number of the block.
  abbrev pub U : List ℕ → List ℕ → ℕ → List ℕ
  U passphrase salted zero = prf passphrase salted
  U passphrase salted (suc i) = prf passphrase (U passphrase salted i)

  -- Their exclusive or.
  abbrev pub T : List ℕ → List ℕ → ℕ → List ℕ
  T passphrase salted zero = U passphrase salted zero
  T passphrase salted (suc n) = xor_block (T passphrase salted n) (U passphrase salted (suc n))

  iterate-T :
      (iterations left i n : ℕ) (passphrase salted : List ℕ)
      → left + i ≡ n
      → iterate prf iterations left passphrase (U passphrase salted i) (T passphrase salted i)
        ≡ T passphrase salted n
  unfolding iterate
  iterate-T iterations zero i n passphrase salted e =
      let same : i ≡ n = omega (arith, e) in ap (T passphrase salted) same
  iterate-T iterations (suc left) i n passphrase salted e =
      iterate-T iterations left (suc i) n passphrase salted (omega (arith, e))

  make_block-T :
      (iterations counter : ℕ) (salt passphrase : List ℕ)
      → make_block prf iterations salt counter passphrase
        ≡ T passphrase (salt ++ counter_bytes counter) (iterations - 1)
  unfolding make_block
  make_block-T iterations counter salt passphrase =
      iterate-T iterations (iterations - 1) 0 (iterations - 1) passphrase
        (salt ++ counter_bytes counter) (omega arith)

  blocks_lem :
      (iterations : ℕ) (salt passphrase : List ℕ)
      → blocks prf iterations 2 salt passphrase 16 0 []
        ≡ some (take 16 (T passphrase (salt ++ 0 ∷ 0 ∷ 0 ∷ 1 ∷ []) (iterations - 1)))
  unfolding blocks
  blocks_lem iterations salt passphrase = rw (make_block-T iterations 1 salt passphrase) refl

take_all : (xs : List ℕ) → take (length xs) xs ≡ xs
take_all [] = refl
take_all (x ∷ xs) = ap (λ ys. x ∷ ys) (take_all xs)

load_front : (xs ys : List ℕ) → load (xs ++ ys) 0 (length xs) ≡ some xs
unfolding load
load_front xs ys = ground (arith, length-append xs ys, take-length-append xs ys)

load_all : (xs : List ℕ) (n : ℕ) → length xs ≡ n → load xs 0 n ≡ some xs
unfolding load
load_all xs n e = ground (arith, e, take_all xs)

prefix_lem : store (replicate 30 0) 0 salt_prefix ≡ some (salt_prefix ++ replicate 24 0)
unfolding store
prefix_lem = refl

salt_lem :
    (p : Pskc) (ext_pan_id network_name : List ℕ)
    → length ext_pan_id ≡ 8
    → 1 ≤ length network_name
    → length network_name ≤ 16
    → (q : Pskc) × (set_salt p ext_pan_id network_name ≡ some q)
      × (load q.salt 0 q.salt_len ≡ some (salt_prefix ++ ext_pan_id ++ network_name))
unfolding set_salt
salt_lem p ext_pan_id network_name he h1 h16 =
    let zeros : List ℕ = replicate 16 0 in
    let l1 : load ext_pan_id 0 8 ≡ some ext_pan_id = load_all ext_pan_id 8 he in
    let l2 : store (salt_prefix ++ replicate 24 0) 6 ext_pan_id
        ≡ some (salt_prefix ++ (ext_pan_id ++ zeros)) =
      store_here salt_prefix (replicate 24 0) ext_pan_id (ground (arith, he))
      ∙ ap (λ n. some (salt_prefix ++ (ext_pan_id ++ drop n (replicate 24 0)))) he in
    let whole : List ℕ =
      salt_prefix ++ (ext_pan_id ++ (network_name ++ drop (length network_name) zeros)) in
    let l3 : store (salt_prefix ++ (ext_pan_id ++ zeros)) 14 network_name ≡ some whole =
      ap (λ n. store (salt_prefix ++ (ext_pan_id ++ zeros)) (6 + n) network_name) (sym he)
      ∙ store-append salt_prefix ext_pan_id zeros network_name (ground (arith, h16)) in
    let front : List ℕ = salt_prefix ++ (ext_pan_id ++ network_name) in
    let total : 14 + length network_name ≡ length front =
      ground (arith, he, length-append ext_pan_id network_name) in
    let q : Pskc = record p { salt = whole; salt_len = 14 + length network_name } in
    (
      q,
      ground (arith, h1, prefix_lem, l1, l2, l3),
      ap (λ xs. load (salt_prefix ++ xs) 0 (14 + length network_name))
            (sym (append_assoc ext_pan_id network_name _))
          ∙ ap (λ n. load (front ++ drop (length network_name) zeros) 0 n) total
          ∙ load_front front (drop (length network_name) zeros),
    )

-- With an extended PAN ID of 8 bytes and a name of 1 to 16, the key that is computed is the first
-- 16 bytes of block 1 of PBKDF2: the exclusive or of the iterates of the pseudo-random function
-- on the pass phrase, from the text `Thread`, the PAN ID, the name and the number 1.
pub compute_pskc-T :
    (prf : List ℕ → List ℕ → List ℕ) (iterations : ℕ) (p : Pskc)
    (ext_pan_id network_name passphrase : List ℕ)
    → length ext_pan_id ≡ 8
    → 1 ≤ length network_name
    → length network_name ≤ 16
    → (q : Pskc) × (compute_pskc prf iterations p ext_pan_id network_name passphrase ≡ some q)
      × (q.pskc
          ≡ take 16 (
              T prf passphrase
                ((salt_prefix ++ (ext_pan_id ++ network_name)) ++ (0 ∷ 0 ∷ 0 ∷ 1 ∷ []))
                (iterations - 1)))
unfolding compute_pskc
compute_pskc-T prf iterations p ext_pan_id network_name passphrase he h1 h16 =
    let (q, e, l) = salt_lem p ext_pan_id network_name he h1 h16 in
    let salt : List ℕ = salt_prefix ++ (ext_pan_id ++ network_name) in
    let key : List ℕ = take 16 (T prf passphrase (salt ++ (0 ∷ 0 ∷ 0 ∷ 1 ∷ [])) (iterations - 1)) in
    (
      record q { pskc = key },
      rw (e, l, blocks_lem prf iterations salt passphrase, compute_pskc) refl,
      refl,
    )
