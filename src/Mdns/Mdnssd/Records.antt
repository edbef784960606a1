-- ===== src/Mdns/Mdnssd/Records.antt =====
-- mdns_mdnssd.cpp: the text record of a service.
use commissioner.Prelude.{
  ℕ, zero, suc, ◌+◌, ◌≡◌, ◌≤◌, ◌<◌, refl, ap, sym, ◌∙◌, some, List, [], ◌∷◌, ◌++◌, arith, length,
  take, drop, length-append, drop-append, map, All,
}
use mathlib.Core.List.{append_assoc, append-nil}
use commissioner.Mdns.Mdnssd.{add_record, add_records}

-- The strings of a text record, each behind its length; the fuel is one for each string.
pub parse_txt : ℕ → List ℕ → List (List ℕ)
parse_txt zero txt = []
parse_txt (suc fuel) [] = []
parse_txt (suc fuel) (n ∷ txt) = take n txt ∷ parse_txt fuel (drop n txt)

abbrev pub text_of_pair : List ℕ × List ℕ → List ℕ
text_of_pair (name, value) = name ++ b'=' ∷ value

abbrev pub IsPair : List ℕ × List ℕ → Type 0
IsPair (name, value) = (0 < length name) × (0 < length value)

-- The bytes that the pairs take.
abbrev pub txt_size : List (List ℕ × List ℕ) → ℕ
txt_size [] = 0
txt_size ((name, value) ∷ pairs) = length name + length value + 2 + txt_size pairs

abbrev pub encode_txt : List (List ℕ × List ℕ) → List ℕ
encode_txt [] = []
encode_txt ((name, value) ∷ pairs) =
    (length name + 1 + length value) ∷ ((name ++ b'=' ∷ value) ++ encode_txt pairs)

length-text_of_pair :
    (name value : List ℕ) → length (name ++ b'=' ∷ value) ≡ length name + 1 + length value
length-text_of_pair name value = omega (arith, length-append name (b'=' ∷ value))

add_record_lem :
    (txt name value : List ℕ)
    → 0 < length name
    → 0 < length value
    → length txt + (length name + length value + 2) ≤ 128
    → add_record txt name value
      ≡ some (txt ++ (length name + 1 + length value) ∷ (name ++ b'=' ∷ value))
unfolding add_record
add_record_lem txt name value n w h = ground (arith, n, w, h)

add_records_lem :
    (pairs : List (List ℕ × List ℕ)) (txt : List ℕ)
    → All IsPair pairs
    → length txt + txt_size pairs ≤ 128
    → add_records txt pairs ≡ some (txt ++ encode_txt pairs)
unfolding add_records
add_records_lem [] txt v h = ap some (sym (append-nil txt))
add_records_lem ((name, value) ∷ pairs) txt ((n, w), v) h =
    let more = (length name + 1 + length value) ∷ (name ++ b'=' ∷ value) in
    let e : length (txt ++ more) ≡ length txt + (length name + length value + 2) =
      omega (arith, length-append txt more, length-text_of_pair name value) in
    let one = add_record_lem txt name value n w (omega arith) in
    rw (one, add_records)
      (add_records_lem pairs (txt ++ more) v (omega arith)
        ∙ ap some (append_assoc txt more (encode_txt pairs)))

take-length-append : (xs ys : List ℕ) → take (length xs) (xs ++ ys) ≡ xs
take-length-append [] ys = refl
take-length-append (x ∷ xs) ys = ap (◌∷◌ x) (take-length-append xs ys)

parse_txt-encode_txt :
    (pairs : List (List ℕ × List ℕ))
    → parse_txt (length pairs) (encode_txt pairs) ≡ map text_of_pair pairs
unfolding parse_txt
parse_txt-encode_txt [] = refl
parse_txt-encode_txt ((name, value) ∷ pairs) =
    let t = name ++ b'=' ∷ value in
    let e = length-text_of_pair name value in
    let z : length t ≡ length t + 0 = omega arith in
    rw (
      ← e,
      take-length-append t (encode_txt pairs),
      ap (λ n. drop n (t ++ encode_txt pairs)) z ∙ drop-append t (encode_txt pairs) 0,
      parse_txt-encode_txt pairs,
    )

length-encode_txt : (pairs : List (List ℕ × List ℕ)) → length (encode_txt pairs) ≡ txt_size pairs
length-encode_txt [] = refl
length-encode_txt ((name, value) ∷ pairs) = omega (
  arith,
  length-append (name ++ b'=' ∷ value) (encode_txt pairs),
  length-text_of_pair name value,
  length-encode_txt pairs,
)

-- Pairs of a name and a value, none of them empty, that fit 128 bytes with two more for each pair, are
-- laid out in the record's array without a failed assertion, and read back from it in their order.
pub add_records-parse_txt :
    (pairs : List (List ℕ × List ℕ))
    → All IsPair pairs
    → txt_size pairs ≤ 128
    → (txt : List ℕ) × (add_records [] pairs ≡ some txt)
      × (length txt ≤ 128)
      × (parse_txt (length pairs) txt ≡ map text_of_pair pairs)
add_records-parse_txt pairs v h = (
  encode_txt pairs,
  add_records_lem pairs [] v (omega (arith, h)),
  omega (arith, length-encode_txt pairs, h),
  parse_txt-encode_txt pairs,
)
