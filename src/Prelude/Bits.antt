-- ===== src/Prelude/Bits.antt =====
-- The bitwise operations at variables: an equation for the lowest digit, then fields and laws.
use Prim.Native.Nat.{
  ℕ, zero, suc, ◌+◌, ◌-◌, ◌*◌, ◌/◌, ◌%◌, ◌^◌, ◌≤◌, ◌<◌, min, max, digits, bit_and, bit_or, bit_xor,
  bit_and-bitwise, bit_or-bitwise, bit_xor-bitwise, differ,
}
use mathlib.Core.Path.{◌≡◌, refl, ap, ap₂, ◌∙◌}
use mathlib.Core.Logic.{◌≢◌}
use native.Mathlib.Nat.{pow-suc, mul-add-mod_self_right, mod-eq_of_lt, mod-lt, div-add-mod}
use native.Mathlib.Omega.{arith}

-- The count of digits to go does not matter once it covers the first number.
module _ (z : ℕ → ℕ) (f : ℕ → ℕ → ℕ) where
  digits_count : (n m a b : ℕ) → a ≤ n → a ≤ m → digits z f n a b ≡ digits z f m a b
  digits_count zero zero zero b p q = refl
  digits_count zero (suc m) zero b p q = refl
  digits_count (suc n) zero zero b p q = refl
  digits_count (suc n) (suc m) zero b p q = refl
  digits_count zero m (suc a) b p q = absurd (omega arith)
  digits_count (suc n) zero (suc a) b p q = absurd (omega arith)
  digits_count (suc n) (suc m) (suc a) b p q =
      omega (arith, digits_count n m (suc a / 2) (b / 2) (omega arith) (omega arith))

pub bit_and_low : (a b : ℕ) → bit_and a b ≡ bit_and (a / 2) (b / 2) * 2 + min (a % 2) (b % 2)
bit_and_low zero b = simp bit_and-bitwise (omega arith)
bit_and_low (suc a) b = omega (
  arith,
  bit_and-bitwise (suc a) b,
  bit_and-bitwise (suc a / 2) (b / 2),
  digits_count (λ b. 0) min a (suc a / 2) (suc a / 2) (b / 2) (omega arith) (omega arith),
)

pub bit_or_low : (a b : ℕ) → bit_or a b ≡ bit_or (a / 2) (b / 2) * 2 + max (a % 2) (b % 2)
bit_or_low zero b = simp bit_or-bitwise (omega arith)
bit_or_low (suc a) b = omega (
  arith,
  bit_or-bitwise (suc a) b,
  bit_or-bitwise (suc a / 2) (b / 2),
  digits_count (λ b. b) max a (suc a / 2) (suc a / 2) (b / 2) (omega arith) (omega arith),
)

differ_digits : (x y : ℕ) → x < 2 → y < 2 → differ x y ≡ (x + y) % 2
differ_digits zero zero p q = refl
differ_digits zero (suc zero) p q = refl
differ_digits (suc zero) zero p q = refl
differ_digits (suc zero) (suc zero) p q = refl
differ_digits zero (suc (suc y)) p q = absurd (omega arith)
differ_digits (suc zero) (suc (suc y)) p q = absurd (omega arith)
differ_digits (suc (suc x)) y p q = absurd (omega arith)

pub bit_xor_low : (a b : ℕ) → bit_xor a b ≡ bit_xor (a / 2) (b / 2) * 2 + (a % 2 + b % 2) % 2
bit_xor_low zero b = simp bit_xor-bitwise (omega arith)
bit_xor_low (suc a) b = omega (
  arith,
  bit_xor-bitwise (suc a) b,
  bit_xor-bitwise (suc a / 2) (b / 2),
  digits_count (λ b. b) differ a (suc a / 2) (suc a / 2) (b / 2) (omega arith) (omega arith),
  differ_digits (suc a % 2) (b % 2) (omega arith) (omega arith),
)

-- The binary digit of weight `2 ^ i`.
abbrev pub bit : ℕ → ℕ → ℕ
bit zero a = a % 2
bit (suc i) a = bit i (a / 2)

pub bit-bit_or : (i a b : ℕ) → bit i (bit_or a b) ≡ max (bit i a) (bit i b)
bit-bit_or zero a b = omega (arith, bit_or_low a b)
bit-bit_or (suc i) a b =
    let e : bit_or a b / 2 ≡ bit_or (a / 2) (b / 2) = omega (arith, bit_or_low a b) in
    rw e (bit-bit_or i (a / 2) (b / 2))

pub bit-bit_xor : (i a b : ℕ) → bit i (bit_xor a b) ≡ (bit i a + bit i b) % 2
bit-bit_xor zero a b = omega (arith, bit_xor_low a b)
bit-bit_xor (suc i) a b =
    let e : bit_xor a b / 2 ≡ bit_xor (a / 2) (b / 2) = omega (arith, bit_xor_low a b) in
    rw e (bit-bit_xor i (a / 2) (b / 2))

pub bit-bit_and : (i a b : ℕ) → bit i (bit_and a b) ≡ min (bit i a) (bit i b)
bit-bit_and zero a b = omega (arith, bit_and_low a b)
bit-bit_and (suc i) a b =
    let e : bit_and a b / 2 ≡ bit_and (a / 2) (b / 2) = omega (arith, bit_and_low a b) in
    rw e (bit-bit_and i (a / 2) (b / 2))

pub bit-lt : (i a : ℕ) → bit i a < 2
bit-lt zero a = omega arith
bit-lt (suc i) a = bit-lt i (a / 2)

-- Numbers of `k` digits are told apart by their digits.
pub bit_ext : (k a b : ℕ) → a < 2 ^ k → b < 2 ^ k → ((i : ℕ) → bit i a ≡ bit i b) → a ≡ b
bit_ext zero a b p q h = omega arith
bit_ext (suc k) a b p q h = omega (
  arith,
  h 0,
  bit_ext k (a / 2) (b / 2) (omega (arith, pow-suc 2 k)) (omega (arith, pow-suc 2 k))
      (λ i. h (suc i)),
)

pub lt-two_pow : (a : ℕ) → a < 2 ^ a
lt-two_pow zero = omega arith
lt-two_pow (suc a) = omega (arith, lt-two_pow a, pow-suc 2 a)

pub two_pow_mono : (a b : ℕ) → 2 ^ a ≤ 2 ^ (a + b)
two_pow_mono a zero = let e : a + 0 ≡ a = omega arith in rw e (omega arith)
two_pow_mono a (suc b) =
    let e : a + suc b ≡ suc (a + b) = omega arith in
    rw e (omega (arith, two_pow_mono a b, pow-suc 2 (a + b)))

pub bit_eq : (a b : ℕ) → ((i : ℕ) → bit i a ≡ bit i b) → a ≡ b
bit_eq a b h =
    bit_ext (a + b) a b (omega (arith, lt-two_pow a, two_pow_mono a b))
      (let e : a + b ≡ b + a = omega arith in rw e (omega (arith, lt-two_pow b, two_pow_mono b a)))
      h

pub bit_xor_comm : (a b : ℕ) → bit_xor a b ≡ bit_xor b a
bit_xor_comm a b = bit_eq _ _ λ i. omega (arith, bit-bit_xor i a b, bit-bit_xor i b a)

pub bit_xor_assoc : (a b c : ℕ) → bit_xor (bit_xor a b) c ≡ bit_xor a (bit_xor b c)
bit_xor_assoc a b c = bit_eq _ _ λ i. omega (
  arith,
  bit-bit_xor i (bit_xor a b) c,
  bit-bit_xor i a b,
  bit-bit_xor i a (bit_xor b c),
  bit-bit_xor i b c,
)

zero-bit_xor : (a : ℕ) → bit_xor 0 a ≡ a
zero-bit_xor a = bit_xor-bitwise 0 a

zero-bit_or : (a : ℕ) → bit_or 0 a ≡ a
zero-bit_or a = bit_or-bitwise 0 a

pub bit_xor-zero : (a : ℕ) → bit_xor a 0 ≡ a
bit_xor-zero a = bit_xor_comm a 0 ∙ zero-bit_xor a

bit-zero : (i : ℕ) → bit i 0 ≡ 0
bit-zero zero = refl
bit-zero (suc i) = bit-zero i

pub bit_xor_self : (a : ℕ) → bit_xor a a ≡ 0
bit_xor_self a = bit_eq _ _ λ i. omega (arith, bit-bit_xor i a a, bit-zero i)

pub bit-two_pow_self : (i : ℕ) → bit i (2 ^ i) ≡ 1
bit-two_pow_self zero = refl
bit-two_pow_self (suc i) =
    let e : 2 ^ suc i / 2 ≡ 2 ^ i = omega (arith, pow-suc 2 i) in rw e (bit-two_pow_self i)

pub bit-two_pow_ne : (i j : ℕ) → i ≢ j → bit i (2 ^ j) ≡ 0
bit-two_pow_ne zero zero h = absurd (h refl)
bit-two_pow_ne zero (suc j) h = omega (arith, pow-suc 2 j)
bit-two_pow_ne (suc i) zero h = bit-zero i
bit-two_pow_ne (suc i) (suc j) h =
    let e : 2 ^ suc j / 2 ≡ 2 ^ j = omega (arith, pow-suc 2 j) in
    rw e (bit-two_pow_ne i j (λ p. h (ap suc p)))

pub bit_or-zero : (a : ℕ) → bit_or a 0 ≡ a
bit_or-zero a = bit_eq _ _ λ i. omega (arith, bit-bit_or i a 0, bit-zero i)

pub bit_or-lt : (k a b : ℕ) → a < 2 ^ k → b < 2 ^ k → bit_or a b < 2 ^ k
bit_or-lt zero zero zero p q = omega arith
bit_or-lt zero zero (suc b) p q = absurd (omega arith)
bit_or-lt zero (suc a) b p q = absurd (omega arith)
bit_or-lt (suc k) a b p q = omega (
  arith,
  pow-suc 2 k,
  bit_or_low a b,
  bit_or-lt k (a / 2) (b / 2) (omega (arith, pow-suc 2 k)) (omega (arith, pow-suc 2 k)),
)

pub bit_xor-lt : (k a b : ℕ) → a < 2 ^ k → b < 2 ^ k → bit_xor a b < 2 ^ k
bit_xor-lt zero zero zero p q = omega arith
bit_xor-lt zero zero (suc b) p q = absurd (omega arith)
bit_xor-lt zero (suc a) b p q = absurd (omega arith)
bit_xor-lt (suc k) a b p q = omega (
  arith,
  pow-suc 2 k,
  bit_xor_low a b,
  bit_xor-lt k (a / 2) (b / 2) (omega (arith, pow-suc 2 k)) (omega (arith, pow-suc 2 k)),
)

halve_field : (k a b : ℕ) → (a * 2 ^ suc k + b) / 2 ≡ a * 2 ^ k + b / 2
halve_field k a b = omega (arith, ap (λ (n : ℕ). a * n) (pow-suc 2 k))

mod_two_pow_suc : (k a : ℕ) → a % 2 ^ suc k ≡ a / 2 % 2 ^ k * 2 + a % 2
mod_two_pow_suc k a =
    ap (λ (n : ℕ). n % 2 ^ suc k) split
    ∙ mul-add-mod_self_right (a / 2 / 2 ^ k) (2 ^ suc k) (a / 2 % 2 ^ k * 2 + a % 2)
    ∙ mod-eq_of_lt small
  where
    small : a / 2 % 2 ^ k * 2 + a % 2 < 2 ^ suc k
    small = omega (arith, pow-suc 2 k, mod-lt (a / 2) {m = 2 ^ k} (omega (arith, lt-two_pow k)))

    split : a ≡ a / 2 / 2 ^ k * 2 ^ suc k + (a / 2 % 2 ^ k * 2 + a % 2)
    split =
        omega (arith, ap (λ (n : ℕ). a / 2 / 2 ^ k * n) (pow-suc 2 k), div-add-mod (a / 2) (2 ^ k))

-- The low `k` digits and the digits above them are combined on their own.
pub bit_or_split :
    (k q r s t : ℕ)
    → r < 2 ^ k
    → t < 2 ^ k
    → bit_or (q * 2 ^ k + r) (s * 2 ^ k + t) ≡ bit_or q s * 2 ^ k + bit_or r t
bit_or_split zero q r s t p h =
    let r0 : r ≡ 0 = omega arith in
    let t0 : t ≡ 0 = omega arith in
    let eq : q * 2 ^ 0 + 0 ≡ q = omega arith in
    let es : s * 2 ^ 0 + 0 ≡ s = omega arith in rw (r0, t0, eq, es) (omega arith)
bit_or_split (suc k) q r s t p h = omega (
  arith,
  pow-suc 2 k,
  ap (λ (n : ℕ). q * n) (pow-suc 2 k),
  ap (λ (n : ℕ). s * n) (pow-suc 2 k),
  ap (λ (n : ℕ). bit_or q s * n) (pow-suc 2 k),
  bit_or_low (q * 2 ^ suc k + r) (s * 2 ^ suc k + t),
  bit_or_low r t,
  ap₂ bit_or (halve_field k q r) (halve_field k s t),
  bit_or_split k q (r / 2) s (t / 2) (omega (arith, pow-suc 2 k)) (omega (arith, pow-suc 2 k)),
)

-- `(q << k) | r` is a sum where `r` fits the `k` low digits.
pub bit_or_fields : (k q r : ℕ) → r < 2 ^ k → bit_or (q * 2 ^ k) r ≡ q * 2 ^ k + r
bit_or_fields k q r h = omega (
  arith,
  ap₂ bit_or zeros zeros',
  bit_or_split k q 0 0 r (omega arith) h,
  ap (λ (n : ℕ). n * 2 ^ k) (bit_or-zero q),
  zero-bit_or r,
)
  where
    zeros : q * 2 ^ k + 0 ≡ q * 2 ^ k
    zeros = omega arith

    zeros' : 0 * 2 ^ k + r ≡ r
    zeros' = omega arith

bit_and-zero : (a : ℕ) → bit_and a 0 ≡ 0
bit_and-zero a = bit_eq _ _ λ i. omega (arith, bit-bit_and i a 0, bit-zero i)

pub bit_and_split :
    (k q r s t : ℕ)
    → r < 2 ^ k
    → t < 2 ^ k
    → bit_and (q * 2 ^ k + r) (s * 2 ^ k + t) ≡ bit_and q s * 2 ^ k + bit_and r t
bit_and_split zero q r s t p h =
    let r0 : r ≡ 0 = omega arith in
    let t0 : t ≡ 0 = omega arith in
    let eq : q * 2 ^ 0 + 0 ≡ q = omega arith in
    let es : s * 2 ^ 0 + 0 ≡ s = omega arith in rw (r0, t0, eq, es) (omega arith)
bit_and_split (suc k) q r s t p h = omega (
  arith,
  pow-suc 2 k,
  ap (λ (n : ℕ). bit_and q s * n) (pow-suc 2 k),
  ap (λ (n : ℕ). q * n) (pow-suc 2 k),
  ap (λ (n : ℕ). s * n) (pow-suc 2 k),
  bit_and_low (q * 2 ^ suc k + r) (s * 2 ^ suc k + t),
  bit_and_low r t,
  ap₂ bit_and (halve_field k q r) (halve_field k s t),
  bit_and_split k q (r / 2) s (t / 2) (omega (arith, pow-suc 2 k)) (omega (arith, pow-suc 2 k)),
)

pub bit_xor_split :
    (k q r s t : ℕ)
    → r < 2 ^ k
    → t < 2 ^ k
    → bit_xor (q * 2 ^ k + r) (s * 2 ^ k + t) ≡ bit_xor q s * 2 ^ k + bit_xor r t
bit_xor_split zero q r s t p h =
    let r0 : r ≡ 0 = omega arith in
    let t0 : t ≡ 0 = omega arith in
    let eq : q * 2 ^ 0 + 0 ≡ q = omega arith in
    let es : s * 2 ^ 0 + 0 ≡ s = omega arith in rw (r0, t0, eq, es) (omega arith)
bit_xor_split (suc k) q r s t p h = omega (
  arith,
  pow-suc 2 k,
  ap (λ (n : ℕ). bit_xor q s * n) (pow-suc 2 k),
  ap (λ (n : ℕ). q * n) (pow-suc 2 k),
  ap (λ (n : ℕ). s * n) (pow-suc 2 k),
  bit_xor_low (q * 2 ^ suc k + r) (s * 2 ^ suc k + t),
  bit_xor_low r t,
  ap₂ bit_xor (halve_field k q r) (halve_field k s t),
  bit_xor_split k q (r / 2) s (t / 2) (omega (arith, pow-suc 2 k)) (omega (arith, pow-suc 2 k)),
)

-- A mask of the `k` low digits is the remainder by `2 ^ k`.
pub bit_and_mask : (k a : ℕ) → bit_and a (2 ^ k - 1) ≡ a % 2 ^ k
bit_and_mask zero a = omega (arith, bit_and-zero a)
bit_and_mask (suc k) a =
    let e : (2 ^ suc k - 1) / 2 ≡ 2 ^ k - 1 = omega (arith, pow-suc 2 k, lt-two_pow k) in
    omega (
      arith,
      pow-suc 2 k,
      lt-two_pow k,
      bit_and_low a (2 ^ suc k - 1),
      ap (bit_and (a / 2)) e,
      bit_and_mask k (a / 2),
      mod_two_pow_suc k a,
    )

-- `a & 0x8000` is not zero exactly when the digit of weight 2 ^ 15 is one.
pub bit_and_top : (a : ℕ) → a < 2 ^ 16 → bit_and a 0x8000 ≡ a / 2 ^ 15 * 2 ^ 15
bit_and_top a h = omega (
  arith,
  ap (λ (n : ℕ). bit_and n 0x8000) split,
  bit_and_split 15 (a / 2 ^ 15) (a % 2 ^ 15) 1 0 (omega arith) (omega arith),
  bit_and-zero (a % 2 ^ 15),
  bit_and_low (a / 2 ^ 15) 1,
  bit_and-zero (a / 2 ^ 15 / 2),
)
  where
    split : a ≡ a / 2 ^ 15 * 2 ^ 15 + a % 2 ^ 15
    split = omega arith
