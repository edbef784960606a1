-- ===== src/JoinerList/Json.antt =====
-- What inc/joiner_list_api.hpp relies on of the JSON library, and the keys that it uses.
use commissioner.Prelude.{ℕ, ◌≡◌, Bool, true, false, ◌&&◌, Option, some, List, [], ◌∷◌, ◌==◌}

-- `!strcmp(a, b)`.
abbrev pub same_text : List ℕ → List ℕ → Bool
same_text [] [] = true
same_text [] (b ∷ bs) = false
same_text (a ∷ as') [] = false
same_text (a ∷ as') (b ∷ bs) = a == b && same_text as' bs

abbrev pub psk_key : List ℕ
psk_key = b'p' ∷ b's' ∷ b'k' ∷ []

abbrev pub eui64_key : List ℕ
eui64_key = b'e' ∷ b'u' ∷ b'i' ∷ b'6' ∷ b'4' ∷ []

-- `loads` fails on a text that is no JSON; `elements` is `none` on what is no array; `string` fails
-- on bytes that are no UTF-8.
pub record Jansson : Type 1 where
  pub Json : Type 0
  pub loads : List ℕ → Option Json
  pub elements : Json → Option (List Json)
  pub object_get : Json → List ℕ → Option Json
  pub string_value : Json → Option (List ℕ)
  pub string : List ℕ → Option Json
  pub empty_object : Json
  pub object_set : Json → List ℕ → Json → Json
  pub dumps : List Json → List ℕ
  pub get-set_self : (o : Json) (k : List ℕ) (v : Json) → object_get (object_set o k v) k ≡ some v
  pub get-set_ne :
      (o : Json) (k j : List ℕ) (v : Json)
      → same_text k j ≡ false
      → object_get (object_set o k v) j ≡ object_get o j
  pub value-string : (t : List ℕ) (j : Json) → string t ≡ some j → string_value j ≡ some t
