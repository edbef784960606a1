-- ===== src/Common/Tlv/Store.antt =====
-- The copies into an array, when they fit and when they do not.
use commissioner.Prelude.{
  ℕ, ◌+◌, ◌≡◌, ◌<◌, ◌≤◌, none, some, List, ◌++◌, arith, length, take, drop, length-append,
  length-take, length-drop, leb, Bool-cases, inl, inr, leb→le,
}
use commissioner.Prelude.Yields.{Yields, nothing, gives}
use commissioner.Common.Tlv.{store}

pub store-length :
    (mem : List ℕ) (p : ℕ) (bytes : List ℕ)
    → p + length bytes ≤ length mem
    → (mem' : List ℕ) × (store mem p bytes ≡ some mem') × (length mem' ≡ length mem)
unfolding store
store-length mem p bytes h = (
  take p mem ++ (bytes ++ drop (p + length bytes) mem),
  ground (arith, h),
  omega (
    arith,
    length-append (take p mem) (bytes ++ drop (p + length bytes) mem),
    length-append bytes (drop (p + length bytes) mem),
    length-take p mem,
    length-drop (p + length bytes) mem,
  ),
)

pub store_full :
    (mem : List ℕ) (p : ℕ) (bytes : List ℕ)
    → length mem < p + length bytes
    → store mem p bytes ≡ none
unfolding store
store_full mem p bytes h = ground (arith, h)

pub Yields-store :
    (mem : List ℕ) (p : ℕ) (bytes : List ℕ)
    → Yields (λ m. length m ≡ length mem) (store mem p bytes)
Yields-store mem p bytes = elim (Bool-cases (leb (p + length bytes) (length mem))) [
  | inl h ↦
      let v = store-length mem p bytes (leb→le (p + length bytes) (length mem) h) in
      rw v.1 (gives v.2)
  | inr h ↦ rw (store_full mem p bytes (ground (arith, h))) nothing
]
