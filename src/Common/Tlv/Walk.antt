-- ===== src/Common/Tlv/Walk.antt =====
-- The loop `while (LengthOf(payload, tlv) < length) { …; tlv = tlv->GetNext(); }`, which the
-- clients of tlv.hpp share, over an abstract body.
use mathlib.Core.List.{append_assoc}
use commissioner.Prelude.{
  ℕ, zero, suc, ◌+◌, ◌-◌, ◌%◌, ◌^◌, ◌≤◌, ◌<◌, ◌≡◌, ◌≢◌, refl, Bool, true, false, Option, none, some,
  List, [], ◌∷◌, ◌++◌, arith, ltb, lt→ltb, length, All, length-append, Option-cases, get_elem?, inl,
  inr,
}
use commissioner.Common.Tlv.{get_next}
use commissioner.Common.Tlv.Layout.{Entry, encode, get_next-encode}

-- How one round of the body ends: `fault` is an access outside the payload.
pub data Control {ℓ} (S : Type ℓ) : Type ℓ where
  continue : S → Control S
  leave : S → Control S
  fault : Control S

pub data Walked {ℓ} (S : Type ℓ) : Type ℓ where
  finished : S → Walked S
  faulted : Walked S
  exhausted : Walked S

-- `LengthOf` is a `uint16_t`.
abbrev pub length_of : ℕ → ℕ
length_of p = p % 2 ^ 16

-- One test of the loop's condition, with the body's outcome, the next entry and the rest of the loop.
abbrev pub round {ℓ} :
    {S : Type ℓ} → Bool → Control S → Option ℕ → (ℕ → S → Walked S) → S → Walked S
round false c n rest s = finished s
round true fault n rest s = faulted
round true (leave s') n rest s = finished s'
round true (continue s') none rest s = faulted
round true (continue s') (some q) rest s = rest q s'

module _ {ℓ} {S : Type ℓ} (body : List ℕ → ℕ → S → Control S) where
  pub walk : ℕ → List ℕ → ℕ → ℕ → S → Walked S
  walk zero payload len p s = exhausted
  walk (suc fuel) payload len p s =
      round (ltb (length_of p) len) (body payload p s) (get_next payload p)
        (λ q s'. walk fuel payload len q s') s

round-ne-exhausted {ℓ} :
    {S : Type ℓ} (b : Bool) (c : Control S) (n : Option ℕ) (rest : ℕ → S → Walked S) (s : S)
    → ((q : ℕ) (s' : S) → n ≡ some q → rest q s' ≢ exhausted)
    → round b c n rest s ≢ exhausted
round-ne-exhausted false c n rest s h = λ e. cc
round-ne-exhausted true fault n rest s h = λ e. cc
round-ne-exhausted true (leave s') n rest s h = λ e. cc
round-ne-exhausted true (continue s') none rest s h = λ e. cc
round-ne-exhausted true (continue s') (some q) rest s h = h q s' refl

abbrev pub after {ℓ} : {S : Type ℓ} → Control S → (S → Walked S) → Walked S
after fault rest = faulted
after (leave s) rest = finished s
after (continue s) rest = rest s

-- What a walk over well-formed entries should compute.
abbrev pub over {ℓ} : {S : Type ℓ} → (Entry → S → Control S) → List Entry → S → Walked S
over handle [] s = finished s
over handle (t ∷ ts) s = after (handle t s) (λ s'. over handle ts s')

round-after {ℓ} :
    {S : Type ℓ} (c : Control S) (q : ℕ) (rest : ℕ → S → Walked S) (then : S → Walked S) (s : S)
    → ((s' : S) → rest q s' ≡ then s')
    → round true c (some q) rest s ≡ after c then
round-after fault q rest then s h = refl
round-after (leave s') q rest then s h = refl
round-after (continue s') q rest then s h = h s'

abbrev pub encode_all : List Entry → List ℕ
encode_all [] = []
encode_all (t ∷ ts) = encode t ++ encode_all ts

get_elem?-lt : (xs : List ℕ) (i v : ℕ) → get_elem? xs i ≡ some v → i < length xs
get_elem?-lt [] i v h = absurd (elim-none h)
  where
    elim-none : none ≡ some v → ⊥
    elim-none e = cc
get_elem?-lt (x ∷ xs) zero v h = omega arith
get_elem?-lt (x ∷ xs) (suc i) v h = omega (arith, get_elem?-lt xs i v h)

-- A step to the next entry reads a length inside the payload, and goes on by at least two bytes.
get_next-lt :
    (mem : List ℕ) (p q : ℕ) → get_next mem p ≡ some q → (p + 2 ≤ q) × (p + 1 < length mem)
unfolding get_next
get_next-lt mem p q h = elim (Option-cases (get_elem? mem (p + 1))) [
  | inl e ↦ ground (arith, e)
  | inr (v, e) ↦ ground (arith, e, get_elem?-lt mem (p + 1) v e)
]

-- What holds of the state that a round or a walk ends with, if it ends with one.
abbrev pub Ends {ℓ κ} : {S : Type ℓ} → (S → Type κ) → Walked S → Type κ
Ends P (finished s) = P s
Ends P faulted = Unit
Ends P exhausted = Unit

abbrev pub Leads {ℓ κ} : {S : Type ℓ} → (S → Type κ) → Control S → Type κ
Leads P (continue s) = P s
Leads P (leave s) = P s
Leads P fault = Unit

Ends-round {ℓ κ} :
    {S : Type ℓ} (P : S → Type κ) (b : Bool) (c : Control S) (n : Option ℕ)
    (rest : ℕ → S → Walked S) (s : S)
    → P s
    → Leads P c
    → ((q : ℕ) (s' : S) → P s' → Ends P (rest q s'))
    → Ends P (round b c n rest s)
Ends-round P false c n rest s h l k = h
Ends-round P true fault n rest s h l k = tt
Ends-round P true (leave s') n rest s h l k = l
Ends-round P true (continue s') none rest s h l k = tt
Ends-round P true (continue s') (some q) rest s h l k = k q s' l

-- What each round keeps, the walk keeps, over any payload.
pub walk_inv {ℓ κ} :
    {S : Type ℓ} (body : List ℕ → ℕ → S → Control S) (P : S → Type κ)
    → ((payload : List ℕ) (p : ℕ) (s : S) → P s → Leads P (body payload p s))
    → (fuel : ℕ) (payload : List ℕ) (len p : ℕ) (s : S) → P s
    → Ends P (walk body fuel payload len p s)
unfolding walk
walk_inv body P keep zero payload len p s h = tt
walk_inv body P keep (suc fuel) payload len p s h =
    Ends-round P (ltb (length_of p) len) (body payload p s) (get_next payload p) _ s h
      (keep payload p s h) (λ q s' h'. walk_inv body P keep fuel payload len q s' h')

module _ {ℓ} {S : Type ℓ} (body : List ℕ → ℕ → S → Control S) where
  -- Whatever the payload holds, the walk ends: fuel for its bytes is enough.
  pub walk-total :
      (fuel : ℕ) (payload : List ℕ) (len p : ℕ) (s : S)
      → length payload - p < fuel
      → walk body fuel payload len p s ≢ exhausted
  unfolding walk
  walk-total zero payload len p s h = absurd (omega arith)
  walk-total (suc fuel) payload len p s h =
      round-ne-exhausted (ltb (length_of p) len) (body payload p s) (get_next payload p) _ s
        (λ q s' e. walk-total fuel payload len q s' (omega (arith, get_next-lt payload p q e)))

  module _ {κ} (Readable : Entry → Type κ) (handle : Entry → S → Control S)
      (reads : (pre post : List ℕ) (t : Entry) (s : S)
        → Readable t
        → body (pre ++ (encode t ++ post)) (length pre) s ≡ handle t s)
      (short : (t : Entry) → Readable t → length t.value < 2 ^ 16) where
    walk_from :
        (ts : List Entry) (pre : List ℕ) (fuel : ℕ) (s : S)
        → All Readable ts
        → length (pre ++ encode_all ts) < 2 ^ 16
        → length ts < fuel
        → walk body fuel (pre ++ encode_all ts) (length (pre ++ encode_all ts)) (length pre) s
          ≡ over handle ts s
    unfolding walk
    walk_from ts pre zero s r h f = absurd (omega arith)
    walk_from [] pre (suc fuel) s r h f = ground (arith, length-append pre [])
    walk_from (t ∷ ts) pre (suc fuel) s r h f =
        rw
          (
            lt→ltb (length_of (length pre)) (length (pre ++ encode_all (t ∷ ts)))
                (omega (arith, length-append pre (encode_all (t ∷ ts)))),
            reads pre (encode_all ts) t s r.0,
            get_next-encode pre (encode_all ts) t (short t r.0),
          )
          (round-after (handle t s) (length pre + length (encode t))
            (λ q s'.
              walk body fuel (pre ++ encode_all (t ∷ ts)) (length (pre ++ encode_all (t ∷ ts))) q
                s')
            _ s
            (λ s'.
              rw (← append_assoc pre (encode t) (encode_all ts), ← length-append pre (encode t))
                (walk_from ts (pre ++ encode t) fuel s' r.1
                  (rw (append_assoc pre (encode t) (encode_all ts)) h) (omega arith))))

    -- Over well-formed entries the walk is the fold of what each entry means.
    pub walk-encode_all :
        (ts : List Entry) (fuel : ℕ) (s : S)
        → All Readable ts
        → length (encode_all ts) < 2 ^ 16
        → length ts < fuel
        → walk body fuel (encode_all ts) (length (encode_all ts)) 0 s ≡ over handle ts s
    walk-encode_all ts fuel s r h f = walk_from ts [] fuel s r h f
