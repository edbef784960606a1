-- ===== src/Utils/Crc16/Laws.antt =====
-- crc16.cpp as arithmetic over binary polynomials.
use mathlib.Core.Path.{ap₂}
use commissioner.Prelude.{
  ℕ, zero, suc, ◌+◌, ◌*◌, ◌/◌, ◌%◌, ◌^◌, ◌<◌, ◌≡◌, refl, ap, ◌∙◌, sym, List, [], ◌∷◌, arith,
  bit_xor, All, length, ◌++◌, ◌==◌, if◌then◌else◌,
}
use commissioner.Prelude.Bits.{
  bit_and_top, bit_xor-lt, bit_xor_split, bit_xor_assoc, bit_xor_comm, bit_xor_self, bit_xor-zero,
}
use commissioner.Utils.Crc16.{Crc16, shift_bit, shift_bits, update, feed}

shift_bit-lt : (p c : ℕ) → p < 2 ^ 16 → shift_bit p c < 2 ^ 16
unfolding shift_bit
shift_bit-lt p c h = ground (arith, bit_xor-lt 16 (c * 2 % 2 ^ 16) p)

shift_bits-lt : (i p c : ℕ) → p < 2 ^ 16 → c < 2 ^ 16 → shift_bits i p c < 2 ^ 16
unfolding shift_bits
shift_bits-lt zero p c hp hc = hc
shift_bits-lt (suc i) p c hp hc = shift_bits-lt i p (shift_bit p c) hp (shift_bit-lt p c hp)

-- The value stays within its 16 bits.
pub update-lt :
    (c : Crc16) (byte : ℕ) → c.polynomial < 2 ^ 16 → c.crc < 2 ^ 16 → (update c byte).crc < 2 ^ 16
unfolding update
update-lt c byte hp hc =
    shift_bits-lt 8 c.polynomial _ hp (bit_xor-lt 16 c.crc (byte * 2 ^ 8 % 2 ^ 16) hc (omega arith))

-- A round by the top digit.
shift_bit_top :
    (p c : ℕ)
    → c < 2 ^ 16
    → shift_bit p c ≡ (if c / 2 ^ 15 == 0 then c % 2 ^ 15 * 2 else bit_xor (c % 2 ^ 15 * 2) p)
unfolding shift_bit
shift_bit_top p c h =
    let e : c * 2 % 2 ^ 16 ≡ c % 2 ^ 15 * 2 = omega arith in rw e (ground (arith, bit_and_top c h))

xor_parts :
    (a b : ℕ)
    → (bit_xor a b / 2 ^ 15 ≡ bit_xor (a / 2 ^ 15) (b / 2 ^ 15))
      × (bit_xor a b % 2 ^ 15 ≡ bit_xor (a % 2 ^ 15) (b % 2 ^ 15))
xor_parts a b =
    let sum : bit_xor a b
        ≡ bit_xor (a / 2 ^ 15) (b / 2 ^ 15) * 2 ^ 15 + bit_xor (a % 2 ^ 15) (b % 2 ^ 15) =
      ap₂ bit_xor (parts a) (parts b)
      ∙ bit_xor_split 15 (a / 2 ^ 15) (a % 2 ^ 15) (b / 2 ^ 15) (b % 2 ^ 15) (omega arith)
          (omega arith) in
    let small : bit_xor (a % 2 ^ 15) (b % 2 ^ 15) < 2 ^ 15 =
      bit_xor-lt 15 _ _ (omega arith) (omega arith) in
    (omega arith, omega arith)
  where
    parts : (n : ℕ) → n ≡ n / 2 ^ 15 * 2 ^ 15 + n % 2 ^ 15
    parts n = omega arith

xor_double : (a b : ℕ) → bit_xor (a * 2) (b * 2) ≡ bit_xor a b * 2
xor_double a b =
    ap₂ bit_xor (plus a) (plus b)
    ∙ bit_xor_split 1 a 0 b 0 (omega arith) (omega arith)
    ∙ omega arith
  where
    plus : (n : ℕ) → n * 2 ≡ n * 2 ^ 1 + 0
    plus n = omega arith

-- The four sums of `x`, `y` and one or two `p`.
xor_left : (x y p : ℕ) → bit_xor (bit_xor x p) y ≡ bit_xor (bit_xor x y) p
xor_left x y p = bit_xor_assoc x p y ∙ ap (bit_xor x) (bit_xor_comm p y) ∙ sym (bit_xor_assoc x y p)

xor_both : (x y p : ℕ) → bit_xor (bit_xor x p) (bit_xor y p) ≡ bit_xor x y
xor_both x y p =
    sym (bit_xor_assoc (bit_xor x p) y p)
    ∙ ap (λ (n : ℕ). bit_xor n p) (xor_left x y p)
    ∙ bit_xor_assoc (bit_xor x y) p p
    ∙ ap (bit_xor (bit_xor x y)) (bit_xor_self p)
    ∙ bit_xor-zero (bit_xor x y)

-- A round adds `p` for each summand whose top digit is set; two of them cancel.
xor_cases :
    (p x y z t q r : ℕ)
    → q < 2
    → r < 2
    → t ≡ bit_xor q r
    → z ≡ bit_xor x y
    → (if t == 0 then z else bit_xor z p)
      ≡ bit_xor (if q == 0 then x else bit_xor x p) (if r == 0 then y else bit_xor y p)
xor_cases p x y z t zero zero hq hr et ez = ground arith
xor_cases p x y z t (suc zero) zero hq hr et ez = ground (arith, xor_left x y p)
xor_cases p x y z t zero (suc zero) hq hr et ez = ground (arith, bit_xor_assoc x y p)
xor_cases p x y z t (suc zero) (suc zero) hq hr et ez = ground (arith, xor_both x y p)
xor_cases p x y z t (suc (suc q)) r hq hr et ez = absurd (omega arith)
xor_cases p x y z t zero (suc (suc r)) hq hr et ez = absurd (omega arith)
xor_cases p x y z t (suc zero) (suc (suc r)) hq hr et ez = absurd (omega arith)

shift_bit-xor :
    (p a b : ℕ)
    → a < 2 ^ 16
    → b < 2 ^ 16
    → shift_bit p (bit_xor a b) ≡ bit_xor (shift_bit p a) (shift_bit p b)
shift_bit-xor p a b ha hb =
    rw
      (
        shift_bit_top p (bit_xor a b) (bit_xor-lt 16 a b ha hb),
        shift_bit_top p a ha,
        shift_bit_top p b hb,
      )
      (xor_cases p (a % 2 ^ 15 * 2) (b % 2 ^ 15 * 2) _ _ (a / 2 ^ 15) (b / 2 ^ 15) (omega arith)
        (omega arith) (xor_parts a b).0
        (ap (λ (n : ℕ). n * 2) (xor_parts a b).1 ∙ sym (xor_double (a % 2 ^ 15) (b % 2 ^ 15))))

shift_bits-xor :
    (i p a b : ℕ)
    → p < 2 ^ 16
    → a < 2 ^ 16
    → b < 2 ^ 16
    → shift_bits i p (bit_xor a b) ≡ bit_xor (shift_bits i p a) (shift_bits i p b)
unfolding shift_bits
shift_bits-xor zero p a b hp ha hb = refl
shift_bits-xor (suc i) p a b hp ha hb =
    ap (shift_bits i p) (shift_bit-xor p a b ha hb)
    ∙ shift_bits-xor i p (shift_bit p a) (shift_bit p b) hp (shift_bit-lt p a hp)
        (shift_bit-lt p b hp)

-- Digit by digit, two messages of one length.
abbrev pub xor_bytes : List ℕ → List ℕ → List ℕ
xor_bytes [] ys = []
xor_bytes (x ∷ xs) [] = []
xor_bytes (x ∷ xs) (y ∷ ys) = bit_xor x y ∷ xor_bytes xs ys

xor_shuffle :
    (a b x y : ℕ) → bit_xor (bit_xor a b) (bit_xor x y) ≡ bit_xor (bit_xor a x) (bit_xor b y)
xor_shuffle a b x y =
    bit_xor_assoc a b (bit_xor x y)
    ∙ ap (bit_xor a) (
        sym (bit_xor_assoc b x y)
        ∙ ap (λ (n : ℕ). bit_xor n y) (bit_xor_comm b x)
        ∙ bit_xor_assoc x b y)
    ∙ sym (bit_xor_assoc a x (bit_xor b y))

high_byte_xor :
    (x y : ℕ)
    → x < 256
    → y < 256
    → bit_xor x y * 2 ^ 8 % 2 ^ 16 ≡ bit_xor (x * 2 ^ 8 % 2 ^ 16) (y * 2 ^ 8 % 2 ^ 16)
high_byte_xor x y hx hy =
    omega (arith, bit_xor-lt 8 x y hx hy)
    ∙ sym (bit_xor_split 8 x 0 y 0 (omega arith) (omega arith))
    ∙ ap₂ bit_xor (plain x hx) (plain y hy)
  where
    plain : (n : ℕ) → n < 256 → n * 2 ^ 8 + 0 ≡ n * 2 ^ 8 % 2 ^ 16
    plain n h = omega arith

-- The checksum is linear: fed with the sum (exclusive or) of two messages of one length, from
-- the sum of two states, it ends in the sum of the two checksums.
pub feed-xor :
    (p a b : ℕ) (xs ys : List ℕ)
    → p < 2 ^ 16
    → a < 2 ^ 16
    → b < 2 ^ 16
    → length xs ≡ length ys
    → All (λ x. x < 256) xs
    → All (λ y. y < 256) ys
    → (feed (record { polynomial = p; crc = bit_xor a b }) (xor_bytes xs ys)).crc
      ≡ bit_xor
          (feed (record { polynomial = p; crc = a }) xs).crc
          (feed (record { polynomial = p; crc = b }) ys).crc
unfolding feed update
feed-xor p a b [] [] hp ha hb e hx hy = refl
feed-xor p a b [] (y ∷ ys) hp ha hb e hx hy = absurd (omega arith)
feed-xor p a b (x ∷ xs) [] hp ha hb e hx hy = absurd (omega arith)
feed-xor p a b (x ∷ xs) (y ∷ ys) hp ha hb e hx hy =
    let a' = bit_xor a (x * 2 ^ 8 % 2 ^ 16) in
    let b' = bit_xor b (y * 2 ^ 8 % 2 ^ 16) in
    let small_a : a' < 2 ^ 16 = bit_xor-lt 16 a _ ha (omega arith) in
    let small_b : b' < 2 ^ 16 = bit_xor-lt 16 b _ hb (omega arith) in
    let start : bit_xor (bit_xor a b) (bit_xor x y * 2 ^ 8 % 2 ^ 16) ≡ bit_xor a' b' =
      ap (bit_xor (bit_xor a b)) (high_byte_xor x y hx.0 hy.0)
      ∙ xor_shuffle a b (x * 2 ^ 8 % 2 ^ 16) (y * 2 ^ 8 % 2 ^ 16) in
    let step : shift_bits 8 p (bit_xor (bit_xor a b) (bit_xor x y * 2 ^ 8 % 2 ^ 16))
        ≡ bit_xor (shift_bits 8 p a') (shift_bits 8 p b') =
      ap (shift_bits 8 p) start ∙ shift_bits-xor 8 p a' b' hp small_a small_b in
    ap (λ (c : ℕ). (feed (record { polynomial = p; crc = c }) (xor_bytes xs ys)).crc) step
    ∙ feed-xor p (shift_bits 8 p a') (shift_bits 8 p b') xs ys hp (shift_bits-lt 8 p a' hp small_a)
        (shift_bits-lt 8 p b' hp small_b) (omega arith) hx.1 hy.1

shift_bit_low : (p c : ℕ) → c < 2 ^ 15 → shift_bit p c ≡ c * 2
shift_bit_low p c h = shift_bit_top p c (omega arith) ∙ ground arith

shift_bits_low : (p c : ℕ) → c < 256 → shift_bits 8 p c ≡ c * 256
unfolding shift_bits
shift_bits_low p c h =
    rw
      (
        shift_bit_low p c (omega arith),
        shift_bit_low p (c * 2) (omega arith),
        shift_bit_low p (c * 2 * 2) (omega arith),
        shift_bit_low p (c * 2 * 2 * 2) (omega arith),
        shift_bit_low p (c * 2 * 2 * 2 * 2) (omega arith),
        shift_bit_low p (c * 2 * 2 * 2 * 2 * 2) (omega arith),
        shift_bit_low p (c * 2 * 2 * 2 * 2 * 2 * 2) (omega arith),
        shift_bit_low p (c * 2 * 2 * 2 * 2 * 2 * 2 * 2) (omega arith),
      )
      (omega arith)

feed_own :
    (p c : ℕ)
    → c < 2 ^ 16
    → (feed (record { polynomial = p; crc = c }) ((c / 256) ∷ (c % 256) ∷ [])).crc ≡ 0
unfolding feed update
feed_own p c h =
    let high : bit_xor c (c / 256 * 2 ^ 8 % 2 ^ 16) ≡ c % 256 =
      ap₂ bit_xor first second
      ∙ bit_xor_split 8 (c / 256) (c % 256) (c / 256) 0 (omega arith) (omega arith)
      ∙ omega (arith, bit_xor_self (c / 256), bit_xor-zero (c % 256)) in
    let low : c % 256 * 2 ^ 8 % 2 ^ 16 ≡ c % 256 * 256 = omega arith in
    rw (
      high,
      shift_bits_low p (c % 256) (omega arith),
      low,
      bit_xor_self (c % 256 * 256),
      shift_bits_low p 0 (omega arith),
    )
  where
    first : c ≡ c / 256 * 2 ^ 8 + c % 256
    first = omega arith

    second : c / 256 * 2 ^ 8 % 2 ^ 16 ≡ c / 256 * 2 ^ 8 + 0
    second = omega arith

feed-append : (c : Crc16) (xs ys : List ℕ) → feed c (xs ++ ys) ≡ feed (feed c xs) ys
unfolding feed
feed-append c [] ys = refl
feed-append c (x ∷ xs) ys = feed-append (update c x) xs ys

feed-lt :
    (c : Crc16) (xs : List ℕ)
    → c.polynomial < 2 ^ 16
    → c.crc < 2 ^ 16
    → ((feed c xs).crc < 2 ^ 16) × ((feed c xs).polynomial ≡ c.polynomial)
unfolding feed
feed-lt c [] hp hc = (hc, refl)
feed-lt c (x ∷ xs) hp hc = feed-lt (update c x) xs hp (update-lt c x hp hc)

-- A message that is followed by its own checksum, high byte first, leaves a checksum of zero;
-- every value on the way fits 16 bits.
pub feed-append_own :
    (c : Crc16) (xs : List ℕ)
    → c.polynomial < 2 ^ 16
    → c.crc < 2 ^ 16
    → let sum = (feed c xs).crc in
      (sum < 2 ^ 16) × ((feed c (xs ++ (sum / 256) ∷ (sum % 256) ∷ [])).crc ≡ 0)
feed-append_own c xs hp hc = (
  (feed-lt c xs hp hc).0,
  ap (λ (d : Crc16). d.crc) (feed-append c xs _)
      ∙ feed_own (feed c xs).polynomial (feed c xs).crc (feed-lt c xs hp hc).0,
)
