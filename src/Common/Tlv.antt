-- ===== src/Common/Tlv.antt =====
-- lib/borderrouter/src/common/tlv.hpp. A `Tlv *` is an offset into a block of memory, the list of
-- its bytes; `none` is an access outside the block, which C++ leaves undefined.
pub mod Layout
pub mod Store
pub mod Walk
use commissioner.Prelude.{
  ℕ, ◌+◌, ◌*◌, ◌/◌, ◌%◌, ◌^◌, Bool, true, false, ◌||◌, Option, none, some, List, [], ◌∷◌, ◌++◌,
  bit_and, bit_or, leb, ◌==◌, if◌then◌else◌, length, take, drop, get_elem?,
}
use commissioner.Prelude.Chain.{◌>>=◌}

-- `memcpy(p, bytes, sizeof(bytes))`.
unfoldable pub store : List ℕ → ℕ → List ℕ → Option (List ℕ)
store mem p bytes =
    if leb (p + length bytes) (length mem)
    then some (take p mem ++ (bytes ++ drop (p + length bytes) mem))
    else none

-- The bytes that `memcpy` reads.
unfoldable pub load : List ℕ → ℕ → ℕ → Option (List ℕ)
load mem p n = if leb (p + n) (length mem) then some (take n (drop p mem)) else none

unfoldable pub get_type : List ℕ → ℕ → Option ℕ
get_type mem p = get_elem? mem p

pub extended_length : List ℕ → ℕ → Option ℕ
extended_length mem p = do
  high ← get_elem? mem (p + 2)
  low ← get_elem? mem (p + 3)
  some (bit_or (high * 2 ^ 8) low % 2 ^ 16)

unfoldable pub get_length : List ℕ → ℕ → Option ℕ
unfolding extended_length
get_length mem p = do
  len ← get_elem? mem (p + 1)
  if len == 0xff then extended_length mem p else some len

-- The address of the value.
unfoldable pub get_value : List ℕ → ℕ → Option ℕ
get_value mem p = do
  len ← get_elem? mem (p + 1)
  some (p + (1 + (if len == 0xff then 2 + 1 else 1)))

unfoldable pub get_value_uint16 : List ℕ → ℕ → Option ℕ
unfolding get_value
get_value_uint16 mem p = do
  v ← get_value mem p
  high ← get_elem? mem v
  low ← get_elem? mem (v + 1)
  some (bit_or (high * 2 ^ 8) low % 2 ^ 16)

unfoldable pub get_value_uint8 : List ℕ → ℕ → Option ℕ
unfolding get_value
get_value_uint8 mem p = do v ← get_value mem p; get_elem? mem v

unfoldable pub get_next : List ℕ → ℕ → Option ℕ
unfolding get_value get_length
get_next mem p = do v ← get_value mem p; n ← get_length mem p; some (v + n)

unfoldable pub set_type : List ℕ → ℕ → ℕ → Option (List ℕ)
unfolding store
set_type mem p type = store mem p (type ∷ [])

unfoldable pub set_length : List ℕ → ℕ → ℕ → Bool → Option (List ℕ)
unfolding store
set_length mem p len force_extended =
    if leb 0xff len || force_extended
    then store mem (p + 1) (0xff ∷ (len / 2 ^ 8) ∷ bit_and len 0xff ∷ [])
    else store mem (p + 1) ((len % 2 ^ 8) ∷ [])

unfoldable pub set_value_uint16 : List ℕ → ℕ → ℕ → Option (List ℕ)
unfolding store set_length get_value
set_value_uint16 mem p value = do
  mem' ← set_length mem p 2 false
  v ← get_value mem' p
  store mem' v ((value / 2 ^ 8) ∷ bit_and value 0xff ∷ [])

unfoldable pub set_value_uint8 : List ℕ → ℕ → ℕ → Option (List ℕ)
unfolding store set_length get_value
set_value_uint8 mem p value = do
  mem' ← set_length mem p 1 false
  v ← get_value mem' p
  store mem' v (value ∷ [])

unfoldable pub set_value : List ℕ → ℕ → List ℕ → Bool → Option (List ℕ)
unfolding store set_length get_value
set_value mem p value force_extended = do
  mem' ← set_length mem p (length value) force_extended
  v ← get_value mem' p
  store mem' v value

-- The three calls with which the clients append one entry: the memory, and where the next starts.
unfoldable pub put : List ℕ → ℕ → ℕ → List ℕ → Bool → Option (List ℕ × ℕ)
unfolding set_type set_value get_next
put mem p type value force_extended = do
  mem' ← set_type mem p type
  mem'' ← set_value mem' p value force_extended
  next ← get_next mem'' p
  some (mem'', next)

unfoldable pub put_uint16 : List ℕ → ℕ → ℕ → ℕ → Option (List ℕ × ℕ)
unfolding set_type set_value_uint16 get_next
put_uint16 mem p type value = do
  mem' ← set_type mem p type
  mem'' ← set_value_uint16 mem' p value
  next ← get_next mem'' p
  some (mem'', next)

unfoldable pub put_uint8 : List ℕ → ℕ → ℕ → ℕ → Option (List ℕ × ℕ)
unfolding set_type set_value_uint8 get_next
put_uint8 mem p type value = do
  mem' ← set_type mem p type
  mem'' ← set_value_uint8 mem' p value
  next ← get_next mem'' p
  some (mem'', next)
