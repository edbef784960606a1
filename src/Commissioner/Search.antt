-- ===== src/Commissioner/Search.antt =====
-- commissioner.cpp: the search of `FindEui` for the joiner that a relayed packet names.
use commissioner.Prelude.{
  ℕ, zero, suc, ◌+◌, ◌^◌, ◌≤◌, ◌<◌, ◌≡◌, inl, inr, refl, ap, sym, subst, ◌∙◌, Option, none, some,
  List, [], ◌∷◌, arith, length, get_elem?, get_elem?-some, take, drop, if◌then◌else◌, Option-cases,
  Bool, true, false, bit_and,
}
use commissioner.JoinerList.{JoinerInstance, instance_at}
use commissioner.JoinerList.Json.{same_text}
use commissioner.JoinerList.Matching.{instance_at_lem}
use commissioner.Commissioner.{Commissioner, clear_local, find_instance, find_eui}
use commissioner.JoinerSession.{JoinerSession, set_psk}

-- The first eight bytes of a hash, without the bit of value 2 in the first.
abbrev pub iid_of_hash : List ℕ → List ℕ
iid_of_hash [] = []
iid_of_hash (b ∷ bytes) = bit_and b 0b11111101 ∷ take 7 bytes

take-clear_local : (hash : List ℕ) → take 8 (clear_local hash) ≡ iid_of_hash hash
unfolding clear_local
take-clear_local [] = refl
take-clear_local (b ∷ bytes) = refl

module _ (sha256 : List ℕ → List ℕ) where
  -- The identifier that a joiner's packets carry.
  abbrev pub iid_of : JoinerInstance → List ℕ
  iid_of i = iid_of_hash (sha256 i.eui64_bin)

  -- The first entry with an identifier.
  abbrev pub first_match : List JoinerInstance → List ℕ → Option JoinerInstance
  first_match [] mac = none
  first_match (i ∷ is) mac = if same_text mac (iid_of i) then some i else first_match is mac

  first_match-drop :
      (vector : List JoinerInstance) (num : ℕ) (i : JoinerInstance) (mac : List ℕ)
      → get_elem? vector num ≡ some i
      → first_match (drop num vector) mac
        ≡ (if same_text mac (iid_of i) then some i else first_match (drop (suc num) vector) mac)
  first_match-drop [] num i mac e = absurd (ground (arith, e))
  first_match-drop (x ∷ vector) zero i mac e =
      let same : x ≡ i = ap (λ o. elim o [ none ↦ x | some y ↦ y ]) e in
      subst
        (λ y.
          (if same_text mac (iid_of x) then some x else first_match vector mac)
          ≡ (if same_text mac (iid_of y) then some y else first_match vector mac))
        same refl
  first_match-drop (x ∷ vector) (suc num) i mac e = first_match-drop vector num i mac e

  first_match-past :
      (vector : List JoinerInstance) (num : ℕ) (mac : List ℕ)
      → get_elem? vector num ≡ none
      → first_match (drop num vector) mac ≡ none
  first_match-past [] zero mac e = refl
  first_match-past [] (suc num) mac e = refl
  first_match-past (x ∷ vector) zero mac e = absurd (ground (arith, e))
  first_match-past (x ∷ vector) (suc num) mac e = first_match-past vector num mac e

  some-if :
      {A : Type 0} (x y : A) (b : Bool) → (if b then some x else some y) ≡ some (if b then x else y)
  some-if x y true = refl
  some-if x y false = refl

  find_instance_lem :
      (fuel num : ℕ) (vector : List JoinerInstance) (mac : List ℕ)
      → 0 < length vector
      → length vector < 2 ^ 31
      → num ≤ length vector
      → length vector < fuel + num
      → find_instance sha256 fuel vector mac num ≡ some (first_match (drop num vector) mac)
  unfolding find_instance
  find_instance_lem zero num vector mac h0 h31 hn hf = absurd (omega arith)
  find_instance_lem (suc fuel) num vector mac h0 h31 hn hf =
      let at : instance_at vector num ≡ some (get_elem? vector num) =
        elim (instance_at_lem vector num (omega arith) (omega arith)) [
          | inl (z, e) ↦ absurd (ground (arith, z))
          | inr (l, e) ↦ e
        ] in
      elim (Option-cases (get_elem? vector num)) [
        | inl e ↦ rw (at, e, find_instance) (ap some (sym (first_match-past vector num mac e)))
        | inr (i, e) ↦
            let rest : find_instance sha256 fuel vector mac (num + 1)
                ≡ some (first_match (drop (suc num) vector) mac) =
              ap (find_instance sha256 fuel vector mac) (omega arith)
              ∙ find_instance_lem fuel (suc num) vector mac h0 h31
                  (omega (arith, get_elem?-some vector num i e)) (omega arith) in
            let step = first_match-drop vector num i mac e in
            let iid = take-clear_local (sha256 i.eui64_bin) in
            rw (at, e, find_instance, iid, rest, step) (some-if _ _ (same_text mac (iid_of i)))
      ]

  -- The commissioner with the key of the joiner that was found.
  abbrev pub with_key_of : Option JoinerInstance → JoinerSession → Commissioner → Commissioner
  with_key_of none s c = c
  with_key_of (some i) s c = record c { joiner_session = some (set_psk s i.pskd_ascii) }

  -- The commissioner with the key of the joiner that was found, for which it needs a joiner session.
  abbrev pub bind_key : Option JoinerInstance → Commissioner → Option Commissioner
  bind_key none c = some c
  bind_key (some i) c = elim c.joiner_session [
    | none ↦ none
    | some s ↦ some (record c { joiner_session = some (set_psk s i.pskd_ascii) })
  ]

  pub find_eui-bind_key :
      (vector : List JoinerInstance) (mac : List ℕ) (c : Commissioner)
      → 0 < length vector
      → length vector < 2 ^ 31
      → find_eui sha256 vector mac c ≡ bind_key (first_match vector mac) c
  unfolding find_eui
  find_eui-bind_key vector mac c h0 h31 =
      let found =
        find_instance_lem (suc (length vector)) 0 vector mac h0 h31 (omega arith) (omega arith) in
      elim (Option-cases (first_match vector mac)) [
        | inl n ↦ rw (found, n, find_eui) refl
        | inr (i, n) ↦ elim (Option-cases c.joiner_session) [
          | inl e ↦ rw (found, n, e, find_eui) refl
          | inr (s, e) ↦ rw (found, n, e, find_eui) refl
        ]
      ]

  -- With entries in the list and a joiner session, `FindEui` ends, reads only entries of the list,
  -- and gives the session the key of the first joiner with the identifier, if there is one.
  pub find_eui_lem :
      (vector : List JoinerInstance) (mac : List ℕ) (c : Commissioner) (s : JoinerSession)
      → 0 < length vector
      → length vector < 2 ^ 31
      → c.joiner_session ≡ some s
      → find_eui sha256 vector mac c ≡ some (with_key_of (first_match vector mac) s c)
  unfolding find_eui
  find_eui_lem vector mac c s h0 h31 e =
      let found =
        find_instance_lem (suc (length vector)) 0 vector mac h0 h31 (omega arith) (omega arith) in
      elim (Option-cases (first_match vector mac)) [
        | inl n ↦ ground (arith, found, n)
        | inr (i, n) ↦ ground (arith, found, n, e)
      ]
