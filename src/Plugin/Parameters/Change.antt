-- ===== src/Plugin/Parameters/Change.antt =====
-- args_api.hpp: what a change of the parameters does.
use commissioner.Prelude.{
  ℕ, ◌-◌, ◌≤◌, ◌<◌, ◌≡◌, refl, subst, Bool, true, false, Option, none, some, List, [], ◌∷◌, ◌++◌,
  arith, length, drop, take, length-append, length-drop,
}
use commissioner.Utils.Hex.{hex2bytes}
use commissioner.Utils.Hex.Bounds.{hex2bytes-stored}
use commissioner.Pskc.{Pskc, salt_prefix}
use commissioner.Pskc.Derivation.{T, compute_pskc-T}
use commissioner.JoinerList.{success_ok, client_error, copy_string}
use commissioner.JoinerList.Json.{Jansson}
use commissioner.Plugin.Parameters.{
  network_name_key, xpanid_key, agent_pass_key, agent_addr_key, agent_port_key, decimal,
  CommissionerArgs, copy_value, is_present, copy_values, compute_pskc_bin, accept_values,
  parameters_change,
}

-- The bytes of an extended PAN ID after its text was decoded over the old ones.
abbrev pub decoded : List ℕ → List ℕ → List ℕ
decoded text old = (hex2bytes text 8).stored ++ drop (length (hex2bytes text 8).stored) old

decoded-length : (text old : List ℕ) → length old ≡ 8 → length (decoded text old) ≡ 8
decoded-length text old h =
    let stored = (hex2bytes text 8).stored in
    omega (
      arith,
      h,
      length-append stored (drop (length stored) old),
      length-drop (length stored) old,
      (hex2bytes-stored text 8).0,
    )

module _ (J : Jansson) (integer_value : J.Json → Option ℕ)
    (object_update : J.Json → J.Json → J.Json) where
  open J use {Json, loads, object_get, string_value}

  -- A value that reads as a text: a string, or an integer in its decimal digits.
  pub data ReadsAs (obj : Option Json) (text : List ℕ) : Type 0 where
    string_is :
        (j : Json)
        → obj ≡ some j
        → integer_value j ≡ none
        → string_value j ≡ some text
        → ReadsAs obj text
    integer_is :
        (j : Json) (n : ℕ)
        → obj ≡ some j
        → integer_value j ≡ some n
        → text ≡ decimal 20 n
        → ReadsAs obj text

  copy_value_lem :
      (obj : Option Json) (capacity : ℕ) (text to : List ℕ) (error : Bool)
      → ReadsAs obj text
      → length text < capacity
      → copy_value J integer_value object_update obj capacity to error ≡ some (text, error)
  unfolding copy_value copy_string
  copy_value_lem obj capacity text to error (string_is j o i s) h = ground (arith, o, i, s)
  copy_value_lem obj capacity text to error (integer_is j n o i e) h = ground (arith, o, i, e, h)

  present : (obj : Option Json) (text : List ℕ) → ReadsAs obj text → is_present obj ≡ true
  present obj text (string_is j o i s) = rw o refl
  present obj text (integer_is j n o i e) = rw o refl

  module _ (prf : List ℕ → List ℕ → List ℕ) (iterations : ℕ) (pskc : Pskc) where
    copy_values_lem :
        (parsed : Json) (a : CommissionerArgs J integer_value object_update)
        (ntw xpa pas adr prt : List ℕ)
        → ReadsAs (object_get parsed network_name_key) ntw
        → ReadsAs (object_get parsed xpanid_key) xpa
        → ReadsAs (object_get parsed agent_pass_key) pas
        → ReadsAs (object_get parsed agent_addr_key) adr
        → ReadsAs (object_get parsed agent_port_key) prt
        → length ntw ≤ 16
        → length xpa ≤ 16
        → length pas ≤ 64
        → length adr ≤ 45
        → length prt ≤ 5
        → copy_values J integer_value object_update parsed a
          ≡ some (
            record a {
              network_name = ntw;
              xpanid_ascii = xpa;
              pass_phrase = pas;
              agent_address_ascii = adr;
              agent_port_ascii = prt;
            },
            false,
          )
    unfolding copy_values
    copy_values_lem parsed a ntw xpa pas adr prt r1 r2 r3 r4 r5 n16 x16 p64 a45 p5 =
        rw
          (
            copy_value_lem (object_get parsed network_name_key) 17 ntw a.network_name false r1
                (omega arith),
            copy_value_lem (object_get parsed xpanid_key) 17 xpa a.xpanid_ascii false r2
                (omega arith),
            copy_value_lem (object_get parsed agent_pass_key) 65 pas a.pass_phrase false r3
                (omega arith),
            copy_value_lem (object_get parsed agent_addr_key) 46 adr a.agent_address_ascii false r4
                (omega arith),
            copy_value_lem (object_get parsed agent_port_key) 6 prt a.agent_port_ascii false r5
                (omega arith),
            copy_values,
          )
          refl

    -- A JSON object that has all five parameters, in texts that fit their arrays and a network name that
    -- is not empty, is accepted: the texts are stored, and the change is marked. The extended PAN ID
    -- becomes the bytes that its text decodes to, with the old ones of its
    -- eight bytes where it decodes to fewer; the key is the one of PBKDF2 for the pass phrase, that PAN ID and the name.
    pub parameters_change_lem :
        (a : CommissionerArgs J integer_value object_update) (string : List ℕ) (parsed : Json)
        (ntw xpa pas adr prt : List ℕ)
        → loads string ≡ some parsed
        → ReadsAs (object_get parsed network_name_key) ntw
        → ReadsAs (object_get parsed xpanid_key) xpa
        → ReadsAs (object_get parsed agent_pass_key) pas
        → ReadsAs (object_get parsed agent_addr_key) adr
        → ReadsAs (object_get parsed agent_port_key) prt
        → 1 ≤ length ntw
        → length ntw ≤ 16
        → length xpa ≤ 16
        → length pas ≤ 64
        → length adr ≤ 45
        → length prt ≤ 5
        → length a.xpanid_bin ≡ 8
        → parameters_change J integer_value object_update prf iterations pskc a string
          ≡ some (
            record a {
              network_name = ntw;
              xpanid_ascii = xpa;
              pass_phrase = pas;
              agent_address_ascii = adr;
              agent_port_ascii = prt;
              xpanid_bin = decoded xpa a.xpanid_bin;
              send_comm_ka_tx_rate = 15;
              pskc_bin = take 16 (
                  T prf pas
                    ((salt_prefix ++ (decoded xpa a.xpanid_bin ++ ntw)) ++ (0 ∷ 0 ∷ 0 ∷ 1 ∷ []))
                    (iterations - 1));
              parameters_changed = true;
              json_obj = object_update a.json_obj parsed;
            },
            success_ok,
          )
    unfolding parameters_change accept_values compute_pskc_bin
    parameters_change_lem a string parsed ntw xpa pas adr prt hl r1 r2 r3 r4 r5 n1 n16 x16 p64 a45
          p5 b8 =
        let bin = decoded xpa a.xpanid_bin in
        let (q, e, key) =
          compute_pskc-T prf iterations pskc bin ntw pas (decoded-length xpa a.xpanid_bin b8) n1
            n16 in
        subst
          (λ k.
            parameters_change J integer_value object_update prf iterations pskc a string
            ≡ some (
              record a {
                network_name = ntw;
                xpanid_ascii = xpa;
                pass_phrase = pas;
                agent_address_ascii = adr;
                agent_port_ascii = prt;
                xpanid_bin = decoded xpa a.xpanid_bin;
                send_comm_ka_tx_rate = 15;
                pskc_bin = k;
                parameters_changed = true;
                json_obj = object_update a.json_obj parsed;
              },
              success_ok,
            ))
          key
          (rw
            (
              hl,
              present (object_get parsed network_name_key) ntw r1,
              copy_values_lem parsed a ntw xpa pas adr prt r1 r2 r3 r4 r5 n16 x16 p64 a45 p5,
              e,
              parameters_change,
              accept_values,
              compute_pskc_bin,
            )
            refl)

    -- A JSON object with a network name and none of the other parameters is refused, but the name is
    -- replaced, and the key is not the one of that name.
    pub parameters_change_partial :
        (a : CommissionerArgs J integer_value object_update) (string : List ℕ) (parsed : Json)
        (ntw : List ℕ)
        → loads string ≡ some parsed
        → ReadsAs (object_get parsed network_name_key) ntw
        → length ntw ≤ 16
        → object_get parsed xpanid_key ≡ none
        → object_get parsed agent_pass_key ≡ none
        → object_get parsed agent_addr_key ≡ none
        → object_get parsed agent_port_key ≡ none
        → parameters_change J integer_value object_update prf iterations pskc a string
          ≡ some (record a { network_name = ntw }, client_error)
    unfolding parameters_change copy_values copy_value
    parameters_change_partial a string parsed ntw hl r1 n16 e2 e3 e4 e5 =
        rw
          (
            hl,
            present (object_get parsed network_name_key) ntw r1,
            copy_value_lem (object_get parsed network_name_key) 17 ntw a.network_name false r1
                (omega arith),
            e2,
            e3,
            e4,
            e5,
            parameters_change,
            copy_values,
            copy_value,
          )
          refl
