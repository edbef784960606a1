-- ===== src/Common/Tlv/Layout.antt =====
-- tlv.hpp against the wire format: one type byte, a length of one byte or of 0xff and two bytes,
-- and the value.
use mathlib.Core.List.{append_assoc}
use commissioner.Prelude.{
  ℕ, suc, ◌+◌, ◌*◌, ◌/◌, ◌%◌, ◌^◌, ◌≤◌, ◌<◌, ◌≡◌, refl, Bool, false, ◌||◌, some, List, [], ◌∷◌,
  ◌++◌, arith, leb, if◌then◌else◌, length, drop, get_elem?, length-append, get_elem?-append,
  length-drop, drop-drop, Option, take-length-append, drop-append, le→leb, ap, ◌∙◌,
}
use commissioner.Prelude.Bits.{bit_or_fields, bit_and_mask}
use commissioner.Common.Tlv.{
  store, get_type, get_length, get_value, get_value_uint16, get_value_uint8, get_next, set_type,
  set_length, set_value, put, put_uint16, put_uint8,
}

pub record Entry : Type 0 where
  pub type : ℕ
  pub value : List ℕ

abbrev pub length_field : ℕ → Bool → List ℕ
length_field n extended =
    if leb 0xff n || extended then 0xff ∷ (n / 256) ∷ (n % 256) ∷ [] else n ∷ []

abbrev pub encode_with : Bool → Entry → List ℕ
encode_with extended t = t.type ∷ (length_field (length t.value) extended ++ t.value)

abbrev pub encode : Entry → List ℕ
encode t = encode_with false t

pub store_here :
    (pre rest new : List ℕ)
    → length new ≤ length rest
    → store (pre ++ rest) (length pre) new ≡ some (pre ++ (new ++ drop (length new) rest))
unfolding store
store_here pre rest new h = rw (
  le→leb (length pre + length new) (length (pre ++ rest)) (omega (arith, length-append pre rest)),
  take-length-append pre rest,
  drop-append pre rest (length new),
)

-- A store behind `mid`, which itself stands behind `pre`.
pub store-append :
    (pre mid rest new : List ℕ)
    → length new ≤ length rest
    → store (pre ++ (mid ++ rest)) (length pre + length mid) new
      ≡ some (pre ++ (mid ++ (new ++ drop (length new) rest)))
store-append pre mid rest new h =
    rw (← append_assoc pre mid rest, ← length-append pre mid)
      (store_here (pre ++ mid) rest new h
        ∙ ap some (append_assoc pre mid (new ++ drop (length new) rest)))

set_length_lem :
    (pre rest : List ℕ) (type n : ℕ) (extended : Bool)
    → n < 2 ^ 16
    → length (length_field n extended) ≤ length rest
    → set_length (pre ++ (type ∷ rest)) (length pre) n extended
      ≡ some (
          pre ++ (type ∷ (length_field n extended ++ drop (length (length_field n extended)) rest)))
unfolding set_length
set_length_lem pre rest type n extended h room = ground (
  arith,
  bit_and_mask 8 n,
  store-append pre (type ∷ []) rest (0xff ∷ (n / 256) ∷ (n % 256) ∷ []),
  store-append pre (type ∷ []) rest (n ∷ []),
)

-- Reads of an entry's header, wherever the entry stands.
pub get_value_lem :
    (pre post : List ℕ) (type n : ℕ) (extended : Bool)
    → get_value (pre ++ (type ∷ (length_field n extended ++ post))) (length pre)
      ≡ some (length pre + length (type ∷ length_field n extended))
unfolding get_value
get_value_lem pre post type n extended =
    ground (arith, get_elem?-append pre (type ∷ (length_field n extended ++ post)) 1)

pub get_length_lem :
    (pre post : List ℕ) (type n : ℕ) (extended : Bool)
    → n < 2 ^ 16
    → get_length (pre ++ (type ∷ (length_field n extended ++ post))) (length pre) ≡ some n
unfolding get_length
get_length_lem pre post type n extended h = ground (
  arith,
  get_elem?-append pre (type ∷ (length_field n extended ++ post)) 1,
  get_elem?-append pre (type ∷ (length_field n extended ++ post)) 2,
  get_elem?-append pre (type ∷ (length_field n extended ++ post)) 3,
  bit_or_fields 8 (n / 256) (n % 256),
)

set_value_lem :
    (pre rest : List ℕ) (type : ℕ) (value : List ℕ) (extended : Bool)
    → length value < 2 ^ 16
    → length (length_field (length value) extended ++ value) ≤ length rest
    → set_value (pre ++ (type ∷ rest)) (length pre) value extended
      ≡ some (
          pre
          ++ (type
              ∷ ((length_field (length value) extended ++ value)
                  ++ drop (length (length_field (length value) extended ++ value)) rest)))
unfolding set_value
set_value_lem pre rest type value extended h room =
    let field = length_field (length value) extended in
    let tail = drop (length field) rest in
    let sum : length (field ++ value) ≡ length field + length value = length-append field value in
    rw (
      set_length_lem pre rest type (length value) extended h (omega (arith, sum)),
      get_value_lem pre tail type (length value) extended,
      store-append pre (type ∷ field) tail value
          (omega (arith, sum, length-drop (length field) rest)),
      drop-drop (length field) (length value) rest,
      sum,
      append_assoc field value (drop (length field + length value) rest),
    )

-- The bytes of the entry, and the block around them.
abbrev pub Placed : List ℕ → List ℕ → List ℕ → Option (List ℕ × ℕ) → Type 0
Placed pre rest bytes r =
    r ≡ some (pre ++ (bytes ++ drop (length bytes) rest), length pre + length bytes)

get_next_lem :
    (pre post : List ℕ) (t : Entry) (extended : Bool)
    → length t.value < 2 ^ 16
    → get_next (pre ++ (encode_with extended t ++ post)) (length pre)
      ≡ some (length pre + length (encode_with extended t))
unfolding get_next
get_next_lem pre post t extended h =
    let field = length_field (length t.value) extended in
    rw
      (
        append_assoc field t.value post,
        get_value_lem pre (t.value ++ post) t.type (length t.value) extended,
        get_length_lem pre (t.value ++ post) t.type (length t.value) extended h,
      )
      (ap some (omega (arith, length-append field t.value)))

-- Writing a type, a value and its length at an offset with room lays out exactly the entry's
-- bytes there, in the short or in the extended form, changes nothing before or behind them, and
-- the next entry starts behind them.
pub put-encode :
    (pre rest : List ℕ) (t : Entry) (extended : Bool)
    → length t.value < 2 ^ 16
    → length (encode_with extended t) ≤ length rest
    → Placed pre rest
        (encode_with extended t)
        (put (pre ++ rest) (length pre) t.type t.value extended)
unfolding put set_type
put-encode pre [] t extended h room = absurd (omega arith)
put-encode pre (x ∷ rest) t extended h room = rw (
  store_here pre (x ∷ rest) (t.type ∷ []) (omega arith),
  set_value_lem pre rest t.type t.value extended h (omega arith),
  get_next_lem pre (drop (length (length_field (length t.value) extended ++ t.value)) rest) t
      extended h,
)

-- The two integer setters write the entry whose value is the number's bytes, highest first.
pub put_uint16_lem :
    (mem : List ℕ) (p type value : ℕ)
    → put_uint16 mem p type value ≡ put mem p type ((value / 256) ∷ (value % 256) ∷ []) false
unfolding put_uint16 put
put_uint16_lem mem p type value = rw (bit_and_mask 8 value)

pub put_uint8_lem :
    (mem : List ℕ) (p type value : ℕ)
    → put_uint8 mem p type value ≡ put mem p type (value ∷ []) false
unfolding put_uint8 put
put_uint8_lem mem p type value = refl

pub get_next-encode :
    (pre post : List ℕ) (t : Entry)
    → length t.value < 2 ^ 16
    → get_next (pre ++ (encode t ++ post)) (length pre) ≡ some (length pre + length (encode t))
get_next-encode pre post t h = get_next_lem pre post t false h

pub get_type-encode :
    (pre post : List ℕ) (t : Entry)
    → get_type (pre ++ (encode t ++ post)) (length pre) ≡ some t.type
unfolding get_type
get_type-encode pre post t = ground (arith, get_elem?-append pre (encode t ++ post) 0)

-- Byte `i` of the value, at the address that `GetValue` computes.
value_at :
    (pre post value : List ℕ) (type n i : ℕ)
    → get_elem?
        (pre ++ (type ∷ (length_field n false ++ (value ++ post))))
        (length pre + length (type ∷ length_field n false) + i)
      ≡ get_elem? (value ++ post) i
value_at pre post value type n i =
    rw
      (
        ← append_assoc pre (type ∷ length_field n false) (value ++ post),
        ← length-append pre (type ∷ length_field n false),
      )
      (get_elem?-append (pre ++ (type ∷ length_field n false)) (value ++ post) i)

pub get_value_uint8-encode :
    (pre post : List ℕ) (type b : ℕ) (bytes : List ℕ)
    → get_value_uint8
        (pre ++ (encode (record { type = type; value = b ∷ bytes }) ++ post))
        (length pre)
      ≡ some b
unfolding get_value_uint8
get_value_uint8-encode pre post type b bytes =
    let n = suc (length bytes) in
    let here : length pre + length (type ∷ length_field n false)
        ≡ length pre + length (type ∷ length_field n false) + 0 =
      omega arith in
    rw
      (
        append_assoc (length_field n false) (b ∷ bytes) post,
        get_value_lem pre ((b ∷ bytes) ++ post) type n false,
      )
      (rw here (value_at pre post (b ∷ bytes) type n 0))

pub get_value_uint16-encode :
    (pre post : List ℕ) (type high low : ℕ) (bytes : List ℕ)
    → high < 256
    → low < 256
    → get_value_uint16
        (pre ++ (encode (record { type = type; value = high ∷ low ∷ bytes }) ++ post))
        (length pre)
      ≡ some (high * 256 + low)
unfolding get_value_uint16
get_value_uint16-encode pre post type high low bytes h l =
    let n = suc (suc (length bytes)) in
    let value = high ∷ low ∷ bytes in
    let here : length pre + length (type ∷ length_field n false)
        ≡ length pre + length (type ∷ length_field n false) + 0 =
      omega arith in
    rw
      (
        append_assoc (length_field n false) value post,
        get_value_lem pre (value ++ post) type n false,
        value_at pre post value type n 1,
        ap (get_elem? (pre ++ (type ∷ (length_field n false ++ (value ++ post))))) here
            ∙ value_at pre post value type n 0,
      )
      (ground (arith, bit_or_fields 8 high low))
