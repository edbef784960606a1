-- ===== src/ArgcArgv/Words.antt =====
-- commissioner_argcargv.cpp: which words the handlers accept.
use commissioner.Prelude.{
  ℕ, ◌+◌, ◌*◌, ◌≤◌, ◌≡◌, ◌↔◌, ◌⊎◌, true, false, some, List, [], ◌∷◌, arith, length, get_elem?,
  get_elem?-some, All,
}
use commissioner.Utils.Hex.Bounds.{IsHexText, hex2bytes_iff}
use commissioner.ArgcArgv.{ArgcArgv, str_param, hex_param}
use commissioner.ArgcArgv.Handlers.{is_pskd_char, pskd_chars, is_pskd}

-- The alphabet of a key: digits, and upper-case letters without I, O, Q and Z.
abbrev pub IsPskdChar : ℕ → Type 0
IsPskdChar c =
    ((b'0' ≤ c) × (c ≤ b'9'))
    ⊎ ((b'A' ≤ c) × (c ≤ b'Y') × (¬ (c ≡ b'I')) × (¬ (c ≡ b'O')) × (¬ (c ≡ b'Q')))

is_pskd_char_iff : (c : ℕ) → (is_pskd_char c ≡ true) ↔ IsPskdChar c
unfolding is_pskd_char
is_pskd_char_iff c = ground arith

pskd_chars_iff : (pskd : List ℕ) → (pskd_chars pskd ≡ true) ↔ All IsPskdChar pskd
unfolding pskd_chars
pskd_chars_iff [] = ground arith
pskd_chars_iff (c ∷ pskd) = ground (arith, is_pskd_char_iff c, pskd_chars_iff pskd)

-- The handler of `--joiner-passphrase` accepts exactly the keys of 6 to 32 characters of the alphabet.
pub is_pskd_iff :
    (pskd : List ℕ)
    → (is_pskd pskd ≡ true) ↔ ((6 ≤ length pskd) × (length pskd ≤ 32) × All IsPskdChar pskd)
unfolding is_pskd
is_pskd_iff pskd = ground (arith, pskd_chars_iff pskd)

-- A hexadecimal value for `n` bytes is accepted exactly when it has digits only, and `2 n` of them
-- or one less.
pub hex_param_iff :
    (p : ArgcArgv) (ascii bin : List ℕ) (n : ℕ) (cp : List ℕ)
    → get_elem? p.argv p.argx ≡ some cp
    → ((hex_param p ascii bin n).failed ≡ false)
      ↔ (IsHexText cp × (length cp ≤ 2 * n) × (2 * n ≤ length cp + 1))
unfolding hex_param str_param
hex_param_iff p ascii bin n cp e =
    ground (arith, e, get_elem?-some p.argv p.argx cp e, hex2bytes_iff cp n)
