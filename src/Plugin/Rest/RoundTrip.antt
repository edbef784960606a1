-- ===== src/Plugin/Rest/RoundTrip.antt =====
-- comm_rest_api.cpp: a joiner that is put and then deleted.
use commissioner.Prelude.{
  ℕ, ◌≡◌, ◌≤◌, ◌<◌, inl, inr, refl, ap, sym, ◌∙◌, true, false, Option, none, some, List, [], ◌∷◌,
  ◌++◌, ◌==◌, arith, length, All,
}
use commissioner.Prelude.Chain.{◌>>=◌}
use commissioner.Pskc.{Pskc}
use commissioner.Utils.SteeringData.{SteeringData}
use commissioner.JoinerList.{JoinerList, JoinerInstance, success_ok, edit, remove}
use commissioner.JoinerList.Json.{Jansson, same_text}
use commissioner.JoinerList.Synced.{IsSynced, without, has_eui}
use commissioner.JoinerList.Operations.{entry, edit_lem, remove_lem}
use commissioner.Plugin.Rest.{
  Route, Response, put_joiner, delete_joiner, c_str, path_text, joiners_edit, joiners_remove,
  Service, respond,
}

-- No byte of a text is its final zero.
abbrev pub IsText : List ℕ → Type 0
IsText bytes = All (λ b. 0 < b) bytes

pub c_str_lem : (text : List ℕ) → IsText text → c_str text ≡ text
unfolding c_str
c_str_lem [] h = refl
c_str_lem (b ∷ bytes) (p, h) =
    let e : (b == 0) ≡ false = ground (arith, p) in rw (e, c_str_lem bytes h, c_str)

abbrev pub joiner_path : List ℕ → List ℕ
joiner_path eui = b'/' ∷ b'j' ∷ b'o' ∷ b'i' ∷ b'n' ∷ b'e' ∷ b'r' ∷ b's' ∷ b'/' ∷ eui

pub path_text_lem : (eui : List ℕ) → IsText eui → path_text (joiner_path eui) ≡ some eui
unfolding path_text
path_text_lem eui h = ground (arith, c_str_lem eui h)

same_text_self : (t : List ℕ) → same_text t t ≡ true
same_text_self [] = refl
same_text_self (b ∷ t) = let e : (b == b) ≡ true = ground arith in rw (e, same_text_self t)

has_eui-append :
    (eui psk : List ℕ) (is : List JoinerInstance) → has_eui eui (is ++ entry psk eui ∷ []) ≡ true
has_eui-append eui psk [] = rw (same_text_self eui)
has_eui-append eui psk (i ∷ is) = ground (arith, has_eui-append eui psk is)

without-has_eui :
    (eui : List ℕ) (is : List JoinerInstance) → has_eui eui is ≡ false → without eui is ≡ is
without-has_eui eui [] h = refl
without-has_eui eui (i ∷ is) h = ground (arith, without-has_eui eui is, h)

without-append :
    (eui psk : List ℕ) (is : List JoinerInstance)
    → has_eui eui is ≡ false
    → without eui (is ++ entry psk eui ∷ []) ≡ is
without-append eui psk [] h = rw (same_text_self eui)
without-append eui psk (i ∷ is) h = ground (arith, without-append eui psk is, h)

module _ (sha256 : List ℕ → List ℕ) (J : Jansson) where
  open J use {Json, string}

  pub joiners_edit_lem :
      (l : JoinerList sha256 J) (b : ℕ) (body eui : List ℕ)
      → IsText (b ∷ body)
      → IsText eui
      → joiners_edit sha256 J l (record { body = b ∷ body; path = joiner_path eui })
        ≡ edit sha256 J l (b ∷ body) eui
  unfolding joiners_edit
  joiners_edit_lem l b body eui hb he = rw (path_text_lem eui he, c_str_lem (b ∷ body) hb)

  joiners_remove_lem :
      (l : JoinerList sha256 J) (body eui : List ℕ)
      → IsText eui
      → joiners_remove sha256 J l (record { body = body; path = joiner_path eui })
        ≡ (remove sha256 J l eui >>= λ (l', status). some (l', success_ok))
  unfolding joiners_remove
  joiners_remove_lem l body eui he = rw (path_text_lem eui he)

  module _ (integer_value : J.Json → Option ℕ) (object_update : J.Json → J.Json → J.Json)
      (object_dumps : J.Json → List ℕ) (prf : List ℕ → List ℕ → List ℕ) (iterations : ℕ) where
    abbrev pub ask :
        Pskc
        → Service sha256 J integer_value object_update object_dumps prf iterations
        → Route
        → List ℕ
        → List ℕ
        → Option
            (Service sha256 J integer_value object_update object_dumps prf iterations × Response)
    ask pskc s route body eui =
        respond sha256 J integer_value object_update object_dumps prf iterations pskc s route
          (record { body = body; path = joiner_path eui })

    -- Let the joiner list be in step and hold no entry for an EUI-64 of 16 characters. A PUT of a key
    -- of 1 to 32 characters to its path succeeds and adds the entry; a DELETE of the same path then
    -- succeeds and gives back the entries and the filter of before, with the list marked as updated.
    pub put_joiner-delete_joiner :
        (pskc : Pskc) (s : Service sha256 J integer_value object_update object_dumps prf iterations)
        (b : ℕ) (body eui ignored : List ℕ) (p e : Json)
        → IsSynced sha256 J s.joiner_list
        → has_eui eui s.joiner_list.vector ≡ false
        → IsText (b ∷ body)
        → IsText eui
        → length eui ≡ 16
        → length (b ∷ body) ≤ 32
        → string (b ∷ body) ≡ some p
        → string eui ≡ some e
        → (l1 : JoinerList sha256 J) × (l2 : JoinerList sha256 J) × (ask pskc s put_joiner
              (b ∷ body)
              eui
            ≡ some (record s { joiner_list = l1 }, record { code = success_ok; content = none }))
          × (l1.vector ≡ s.joiner_list.vector ++ entry (b ∷ body) eui ∷ [])
          × (ask pskc (record s { joiner_list = l1 }) delete_joiner ignored eui
              ≡ some (record s { joiner_list = l2 }, record { code = success_ok; content = none }))
          × (l2.vector ≡ s.joiner_list.vector)
          × (l2.steering ≡ s.joiner_list.steering)
          × (l2.updated ≡ true)
    unfolding respond
    put_joiner-delete_joiner pskc s b body eui ignored p e v absent hb he n16 n32 hp hs =
        let vec = s.joiner_list.vector in
        let (l1, e1, v1, u1, w1) =
          edit_lem sha256 J s.joiner_list (b ∷ body) eui p e v n16 n32 hp hs in
        let h1 : l1.vector ≡ vec ++ entry (b ∷ body) eui ∷ [] =
          rw (without-has_eui eui vec absent) at v1 in
        elim (remove_lem sha256 J l1 eui w1) [
          | inl (hit, l2, e2, v2, u2, w2) ↦
              let h2 : l2.vector ≡ vec =
                v2 ∙ ap (without eui) h1 ∙ without-append eui (b ∷ body) vec absent in
              let st : some l2.steering ≡ some s.joiner_list.steering =
                sym w2.built ∙ rw h2 v.built in
              (
                l1,
                l2,
                rw (joiners_edit_lem s.joiner_list b body eui hb he, e1) refl,
                h1,
                rw (joiners_remove_lem l1 ignored eui he, e2) refl,
                h2,
                some-inverse st,
                u2,
              )
          | inr (miss, e2) ↦
              absurd
                (contradiction (sym miss ∙ ap (has_eui eui) h1 ∙ has_eui-append eui (b ∷ body) vec))
        ]
      where
        contradiction : false ≡ true → ⊥
        contradiction h = cc

        some-inverse : {x y : SteeringData} → some x ≡ some y → x ≡ y
        some-inverse h = cc
