-- ===== src/Utils/SteeringData/Filter.antt =====
-- steering_data.cpp as a Bloom filter: what a joiner tests.
use commissioner.Prelude.{
  ℕ, zero, suc, ◌+◌, ◌-◌, ◌*◌, ◌/◌, ◌%◌, ◌^◌, ◌≤◌, ◌<◌, ◌≡◌, ◌⊎◌, inl, inr, refl, ap, ◌∙◌, false,
  Option, none, some, List, [], ◌∷◌, arith, bit_or, length, get_or, set, replicate, length-set,
  get_or-set_self, get_or-set_ne, All, ◌==◌, leb, leb→le, Bool-cases,
}
use commissioner.Prelude.Bits.{bit, bit-bit_or, bit-lt, bit_or-lt, two_pow_mono, bit-two_pow_self}
use commissioner.Prelude.Chain.{◌>>=◌}
use native.Mathlib.Nat.{mod-eq_of_lt, mod-lt}
use native.Mathlib.Decide.{ℕ_discrete}
use commissioner.Utils.SteeringData.{
  SteeringData, clear, init, set_bit, compute_bloom_filter, ccitt_of, ansi_of,
}

-- A filter as `Init` leaves it and the other operations keep it.
pub record IsFilter (s : SteeringData) : Type 0 where
  pub size : length s.bloom_filter ≡ 16
  pub fits : s.filter_length ≤ 16
  pub used : 0 < s.filter_length
  pub bytes : (i : ℕ) → get_or s.bloom_filter i 0 < 256

-- Digit `b` of the filter, which is read as one number, highest byte first.
abbrev pub HasBit : SteeringData → ℕ → Type 0
HasBit s b = bit (b % 8) (get_or s.bloom_filter (s.filter_length - 1 - b / 8) 0) ≡ 1

-- The test that a joiner makes with its id.
abbrev pub Matches : SteeringData → List ℕ → Type 0
Matches s id =
    HasBit s (ccitt_of id % (s.filter_length * 8)) × HasBit s (ansi_of id % (s.filter_length * 8))

abbrev byte_of : SteeringData → ℕ → ℕ
byte_of s b = s.filter_length - 1 - b / 8

abbrev with_bit : SteeringData → ℕ → SteeringData
with_bit s b = record s {
  bloom_filter =
      set s.bloom_filter (byte_of s b)
        (bit_or (get_or s.bloom_filter (byte_of s b) 0) (2 ^ (b % 8)));
}

two_pow-lt : (i : ℕ) → i < 8 → 2 ^ i < 256
two_pow-lt i h = omega (arith, two_pow_mono i (7 - i), ap (λ (n : ℕ). 2 ^ n) whole)
  where
    whole : i + (7 - i) ≡ 7
    whole = omega arith

or_keeps : (i x y : ℕ) → bit i x ≡ 1 → bit i (bit_or x y) ≡ 1
or_keeps i x y h = omega (arith, bit-bit_or i x y, bit-lt i y)

module _ (s : SteeringData) (v : IsFilter s) (b : ℕ) (h : b < s.filter_length * 8) where
  new_byte-lt : bit_or (get_or s.bloom_filter (byte_of s b) 0) (2 ^ (b % 8)) < 2 ^ 8
  new_byte-lt = bit_or-lt 8 _ _ (v.bytes (byte_of s b)) (two_pow-lt (b % 8) (omega arith))

  set_bit_lem : set_bit s b ≡ some (with_bit s b)
  unfolding set_bit
  set_bit_lem =
      let e : b % 2 ^ 8 ≡ b = omega (arith, v.fits) in
      let w : bit_or (get_or s.bloom_filter (byte_of s b) 0) (2 ^ (b % 8)) % 2 ^ 8
          ≡ bit_or (get_or s.bloom_filter (byte_of s b) 0) (2 ^ (b % 8)) =
        mod-eq_of_lt new_byte-lt in
      rw (e, w) (ground (arith, v.fits))

  with_bit-IsFilter : IsFilter (with_bit s b)
  with_bit-IsFilter = record {
    size = length-set s.bloom_filter _ _ ∙ v.size;
    fits = v.fits;
    used = v.used;
    bytes = λ i. elim (ℕ_discrete (byte_of s b) i) [
      | yes e ↦
          rw
            (
              ← e,
              get_or-set_self s.bloom_filter (byte_of s b) _ 0
                  (omega (arith, v.size, v.fits, v.used)),
            )
            new_byte-lt
      | no ne ↦ rw (get_or-set_ne s.bloom_filter (byte_of s b) i _ 0 ne) (v.bytes i)
    ];
  }

  with_bit_self : HasBit (with_bit s b) b
  with_bit_self = omega (
    arith,
    ap (bit (b % 8)) (
        get_or-set_self s.bloom_filter (byte_of s b)
          (bit_or (get_or s.bloom_filter (byte_of s b) 0) (2 ^ (b % 8))) 0
          (omega (arith, v.size, v.fits, v.used))),
    bit-bit_or (b % 8) (get_or s.bloom_filter (byte_of s b) 0) (2 ^ (b % 8)),
    bit-two_pow_self (b % 8),
    bit-lt (b % 8) (get_or s.bloom_filter (byte_of s b) 0),
  )

  with_bit_keeps : (c : ℕ) → HasBit s c → HasBit (with_bit s b) c
  with_bit_keeps c old = elim (ℕ_discrete (byte_of s b) (byte_of s c)) [
    | yes e ↦
        rw
          (
            ← e,
            get_or-set_self s.bloom_filter (byte_of s b) _ 0
                (omega (arith, v.size, v.fits, v.used)),
          )
          (or_keeps (c % 8) _ _ (rw e old))
    | no ne ↦ rw (get_or-set_ne s.bloom_filter (byte_of s b) (byte_of s c) _ 0 ne) old
  ]

abbrev with_id : SteeringData → List ℕ → SteeringData
with_id s id =
    with_bit (with_bit s (ccitt_of id % (s.filter_length * 8))) (ansi_of id % (s.filter_length * 8))

-- Adding an id to a filter succeeds, and leaves a filter that the id matches and that every id
-- matches which matched before.
pub compute_bloom_filter_lem :
    (s : SteeringData) (id : List ℕ)
    → IsFilter s
    → (s' : SteeringData) × (compute_bloom_filter s id ≡ some s')
      × IsFilter s'
      × (s'.filter_length ≡ s.filter_length)
      × Matches s' id
      × ((other : List ℕ) → Matches s other → Matches s' other)
unfolding compute_bloom_filter
compute_bloom_filter_lem s id v =
    let n = s.filter_length * 8 in
    let c = ccitt_of id % n in
    let a = ansi_of id % n in
    let lc : c < n = mod-lt (ccitt_of id) (omega (arith, v.used)) in
    let la : a < n = mod-lt (ansi_of id) (omega (arith, v.used)) in
    let s1 = with_bit s c in
    let v1 : IsFilter s1 = with_bit-IsFilter s v c lc in
    (
      with_id s id,
      rw (not_zero n (omega (arith, v.used)), set_bit_lem s v c lc) (set_bit_lem s1 v1 a la),
      with_bit-IsFilter s1 v1 a la,
      refl,
      (with_bit_keeps s1 v1 a la c (with_bit_self s v c lc), with_bit_self s1 v1 a la),
      λ other m. (
        with_bit_keeps s1 v1 a la (ccitt_of other % n)
            (with_bit_keeps s v c lc (ccitt_of other % n) m.0),
        with_bit_keeps s1 v1 a la (ansi_of other % n)
            (with_bit_keeps s v c lc (ansi_of other % n) m.1),
      ),
    )
  where
    not_zero : (n : ℕ) → 0 < n → (n == 0) ≡ false
    not_zero n h = ground arith

-- Adding a list of ids, one after the other.
abbrev pub add_all : SteeringData → List (List ℕ) → Option SteeringData
add_all s [] = some s
add_all s (id ∷ ids) = compute_bloom_filter s id >>= λ s'. add_all s' ids

add_all_keeps :
    (s : SteeringData) (ids : List (List ℕ))
    → IsFilter s
    → (s' : SteeringData) × (add_all s ids ≡ some s')
      × IsFilter s'
      × (s'.filter_length ≡ s.filter_length)
      × All (Matches s') ids
      × ((other : List ℕ) → Matches s other → Matches s' other)
add_all_keeps s [] v = (s, refl, v, refl, tt, λ other m. m)
add_all_keeps s (id ∷ ids) v =
    let (s1, e1, v1, l1, m1, k1) = compute_bloom_filter_lem s id v in
    let (s2, e2, v2, l2, m2, k2) = add_all_keeps s1 ids v1 in
    (s2, rw e1 e2, v2, l2 ∙ l1, (k2 id m1, m2), λ other m. k2 other (k1 other m))

byte_of_replicate : (n i v : ℕ) → v < 256 → get_or (replicate n v) i 0 < 256
byte_of_replicate zero i v h = omega arith
byte_of_replicate (suc n) zero v h = h
byte_of_replicate (suc n) (suc i) v h = byte_of_replicate n i v h

-- `Init` with a length from 1 to 16 leaves a filter; a longer one fails its assertion.
pub init_lem :
    (s : SteeringData) (len : ℕ)
    → 0 < len
    → ((len ≤ 16)
        × (init s len ≡ some (clear (record s { filter_length = len })))
        × IsFilter (clear (record s { filter_length = len })))
      ⊎ ((16 < len) × (init s len ≡ none))
unfolding init
init_lem s len h = elim (Bool-cases (leb len 16)) [
  | inl e ↦ inl (
    leb→le len 16 e,
    rw e,
    record {
      size = refl;
      fits = leb→le len 16 e;
      used = h;
      bytes = λ i. byte_of_replicate 16 i 0 (omega arith);
    },
  )
  | inr e ↦ inr (ground arith, rw e)
]

-- No false negatives: a filter of 1 to 16 bytes that was initialised and given any joiner ids,
-- in any number, is computed without a fault and matches every one of them.
pub init-add_all-Matches :
    (s : SteeringData) (len : ℕ) (ids : List (List ℕ))
    → 0 < len
    → len ≤ 16
    → (s' : SteeringData) × ((init s len >>= λ t. add_all t ids) ≡ some s')
      × (s'.filter_length ≡ len)
      × All (Matches s') ids
unfolding clear
init-add_all-Matches s len ids h fits = elim (init_lem s len h) [
  | inl (f, e, v) ↦ let (s', e', v', l, m, k) = add_all_keeps _ ids v in (s', rw e e', l, m)
  | inr (f, e) ↦ absurd (omega arith)
]
