-- ===== src/Plugin/Parameters.antt =====
-- inc/args_api.hpp: the parameters of the network behind the /network resource, and `ComputePskc` of
-- lib/borderrouter/src/commissioner/device_hash.cpp. `integer_value` is `none` on a value that is no
-- integer, else the number that `%llu` prints.
pub mod Change
use commissioner.Prelude.{
  ℕ, zero, suc, ◌+◌, ◌/◌, ◌%◌, ◌^◌, Bool, true, false, ◌||◌, Option, none, some, List, [], ◌∷◌,
  ◌++◌, ◌==◌, if◌then◌else◌, length, drop,
}
use commissioner.Prelude.Chain.{◌>>=◌}
use commissioner.Utils.Hex.{Decoded, hex2bytes}
use commissioner.Pskc.{Pskc, compute_pskc}
use commissioner.JoinerList.{StatusCode, success_ok, client_error, copy_string}
use commissioner.JoinerList.Json.{Jansson}

abbrev pub network_name_key : List ℕ
network_name_key =
    b'n' ∷ b'e' ∷ b't' ∷ b'w' ∷ b'o' ∷ b'r' ∷ b'k' ∷ b'_' ∷ b'n' ∷ b'a' ∷ b'm' ∷ b'e' ∷ []

abbrev pub xpanid_key : List ℕ
xpanid_key = b'x' ∷ b'p' ∷ b'a' ∷ b'n' ∷ b'i' ∷ b'd' ∷ []

abbrev pub agent_pass_key : List ℕ
agent_pass_key = b'a' ∷ b'g' ∷ b'e' ∷ b'n' ∷ b't' ∷ b'_' ∷ b'p' ∷ b'a' ∷ b's' ∷ b's' ∷ []

abbrev pub agent_addr_key : List ℕ
agent_addr_key = b'a' ∷ b'g' ∷ b'e' ∷ b'n' ∷ b't' ∷ b'_' ∷ b'a' ∷ b'd' ∷ b'd' ∷ b'r' ∷ []

abbrev pub agent_port_key : List ℕ
agent_port_key = b'a' ∷ b'g' ∷ b'e' ∷ b'n' ∷ b't' ∷ b'_' ∷ b'p' ∷ b'o' ∷ b'r' ∷ b't' ∷ []

-- The digits that `%llu` prints; a number of 64 bits has at most 20.
pub decimal : ℕ → ℕ → List ℕ
decimal zero n = []
decimal (suc digits) n =
    let rest = decimal digits (n / 10) in
    if n / 10 == 0 then (b'0' + n % 10) ∷ [] else rest ++ (b'0' + n % 10) ∷ []

abbrev pub is_present {ℓ} : {A : Type ℓ} → Option A → Bool
is_present none = false
is_present (some j) = true

module _ (J : Jansson) (integer_value : J.Json → Option ℕ)
    (object_update : J.Json → J.Json → J.Json) where
  open J use {Json, loads, object_get, string_value, empty_object}

  pub record CommissionerArgs : Type 0 where
    pub json_obj : Json
    pub agent_port_ascii : List ℕ
    pub agent_address_ascii : List ℕ
    pub send_comm_ka_tx_rate : ℕ
    pub xpanid_ascii : List ℕ
    pub xpanid_bin : List ℕ
    pub network_name : List ℕ
    pub pass_phrase : List ℕ
    pub pskc_bin : List ℕ
    pub parameters_changed : Bool

  -- `CopyString`: the array and the flag behind `error` after the call; `none` is a copy past the array.
  unfoldable pub copy_value : Option Json → ℕ → List ℕ → Bool → Option (List ℕ × Bool)
  copy_value obj capacity to error = elim obj [
    | none ↦ some (to, true)
    | some j ↦ elim (integer_value j) [
      | some n ↦ copy_string capacity (decimal 20 n) >>= λ text. some (text, error)
      | none ↦ elim (string_value j) [
        | none ↦ some (to, true)
        | some string ↦ copy_string capacity string >>= λ text. some (text, error)
      ]
    ]
  ]

  -- The five copies; the result is the flag.
  unfoldable pub copy_values : Json → CommissionerArgs → Option (CommissionerArgs × Bool)
  copy_values parsed a =
      copy_value (object_get parsed network_name_key) 17 a.network_name false >>= λ (ntw, e1).
      copy_value (object_get parsed xpanid_key) 17 a.xpanid_ascii e1 >>= λ (xpa, e2).
      copy_value (object_get parsed agent_pass_key) 65 a.pass_phrase e2 >>= λ (pas, e3).
      copy_value (object_get parsed agent_addr_key) 46 a.agent_address_ascii e3 >>= λ (adr, e4).
      copy_value (object_get parsed agent_port_key) 6 a.agent_port_ascii e4 >>= λ (prt, e5). some (
        record a {
          network_name = ntw;
          xpanid_ascii = xpa;
          pass_phrase = pas;
          agent_address_ascii = adr;
          agent_port_ascii = prt;
        },
        e5,
      )

  -- `Clear`.
  unfoldable pub clear_args : CommissionerArgs → CommissionerArgs
  clear_args a = record a { json_obj = empty_object }

  module _ (prf : List ℕ → List ℕ → List ℕ) (iterations : ℕ) where
    -- `ComputePskc` of device_hash.cpp; `pskc` is the memory of its local object.
    unfoldable pub compute_pskc_bin : Pskc → List ℕ → List ℕ → List ℕ → Option (List ℕ)
    compute_pskc_bin pskc ext_pan_id network_name passphrase =
        compute_pskc prf iterations pskc ext_pan_id network_name passphrase >>= λ p. some p.pskc

    -- The end of `ParametersChange`, when all values were copied.
    unfoldable pub accept_values : Pskc → Json → CommissionerArgs → Option CommissionerArgs
    accept_values pskc parsed a =
        let d : Decoded = hex2bytes a.xpanid_ascii 8 in
        let bin = d.stored ++ drop (length d.stored) a.xpanid_bin in
        compute_pskc_bin pskc bin a.network_name a.pass_phrase >>= λ key. some (record a {
          xpanid_bin = bin;
          send_comm_ka_tx_rate = 15;
          pskc_bin = key;
          parameters_changed = true;
          json_obj = object_update a.json_obj parsed;
        })

    unfoldable pub parameters_change :
        Pskc → CommissionerArgs → List ℕ → Option (CommissionerArgs × StatusCode)
    parameters_change pskc a string = elim (loads string) [
      | none ↦ some (a, client_error)
      | some parsed ↦
          if is_present (object_get parsed network_name_key)
            || (is_present (object_get parsed xpanid_key)
                || (is_present (object_get parsed agent_pass_key)
                    || (is_present (object_get parsed agent_addr_key)
                        || is_present (object_get parsed agent_port_key))))
          then (copy_values parsed a >>= λ (a', error).
              if error
              then some (a', client_error)
              else (accept_values pskc parsed a' >>= λ a''. some (a'', success_ok)))
          else some (a, client_error)
    ]
