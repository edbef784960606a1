-- ===== src/Examples/Service.antt =====
-- The theorems on the plugin, with the model of JSON of the joiners.
use commissioner.Prelude.{
  ℕ, ◌-◌, ◌≡◌, refl, true, false, Option, none, some, List, [], ◌∷◌, ◌++◌, arith, take, replicate,
}
use commissioner.JoinerList.{JoinerList, success_ok}
use commissioner.JoinerList.Synced.{blank}
use commissioner.JoinerList.Operations.{entry}
use commissioner.Pskc.{salt_prefix}
use commissioner.Pskc.Derivation.{T}
use commissioner.Plugin.Status.{make}
use commissioner.Plugin.Status.Register.{gets, sets, run, run_register, run-register}
use commissioner.Plugin.Status.Readers.{System, idle, taking, Reach, overlapping_gets}
use commissioner.Plugin.Parameters.{CommissionerArgs, parameters_change}
use commissioner.Plugin.Parameters.Change.{decoded, string_is, parameters_change_lem}
use commissioner.Plugin.Rest.{Service, put_joiner, delete_joiner}
use commissioner.Plugin.Rest.RoundTrip.{IsText, ask, put_joiner-delete_joiner}
use commissioner.Examples.Joiners.{
  Value, empty, text, parameters, psk, eui, json, hash, no_joiners, no_joiners-IsSynced,
}
use commissioner.Examples.Tools.{no_key, prf}

run-register_example :
    run ℕ (gets ∷ sets 4 ∷ gets ∷ gets ∷ []) (make 7)
    ≡ run_register ℕ (gets ∷ sets 4 ∷ gets ∷ gets ∷ []) 7
run-register_example = run-register ℕ (gets ∷ sets 4 ∷ gets ∷ gets ∷ []) 7

abbrev two_readers : System ℕ
two_readers = record {
  status = record { pending = some 4; old_status = 4 };
  locked = false;
  pc = λ i. idle;
}

overlapping_gets_example :
    (t : System ℕ) × Reach ℕ two_readers t
    × ((u : System ℕ) → Reach ℕ t u → (u.pc 1 ≡ taking) × (u.locked ≡ true) × (u.status ≡ t.status))
overlapping_gets_example = overlapping_gets ℕ two_readers 0 1 4 refl refl refl refl refl (λ k. refl)

abbrev pub no_integer : Value → Option ℕ
no_integer j = none

abbrev pub newest : Value → Value → Value
newest old new = new

abbrev pub args : CommissionerArgs json no_integer newest
args = record {
  json_obj = empty;
  agent_port_ascii = [];
  agent_address_ascii = [];
  send_comm_ka_tx_rate = 0;
  xpanid_ascii = [];
  xpanid_bin = replicate 8 0;
  network_name = [];
  pass_phrase = [];
  pskc_bin = replicate 16 0;
  parameters_changed = false;
}

abbrev pub host : JoinerList hash json → Service hash json no_integer newest (λ j. []) prf 3
host l = record { joiner_list = l; arguments = args; status = make [] }

abbrev name_text : List ℕ
name_text = b'n' ∷ []

parameters_change_lem_example :
    parameters_change json no_integer newest prf 3 no_key args (3 ∷ [])
    ≡ some (
      record args {
        network_name = name_text;
        xpanid_ascii = eui;
        pass_phrase = psk;
        agent_address_ascii = b':' ∷ b':' ∷ b'1' ∷ [];
        agent_port_ascii = b'4' ∷ b'9' ∷ [];
        xpanid_bin = decoded eui (replicate 8 0);
        send_comm_ka_tx_rate = 15;
        pskc_bin = take 16 (
            T prf psk
              ((salt_prefix ++ (decoded eui (replicate 8 0) ++ name_text)) ++ (0 ∷ 0 ∷ 0 ∷ 1 ∷ []))
              (3 - 1));
        parameters_changed = true;
        json_obj = parameters;
      },
      success_ok,
    )
parameters_change_lem_example =
    parameters_change_lem json no_integer newest prf 3 no_key args (3 ∷ []) parameters name_text eui
      psk (b':' ∷ b':' ∷ b'1' ∷ []) (b'4' ∷ b'9' ∷ []) refl
      (string_is (text name_text) refl refl refl) (string_is (text eui) refl refl refl)
      (string_is (text psk) refl refl refl)
      (string_is (text (b':' ∷ b':' ∷ b'1' ∷ [])) refl refl refl)
      (string_is (text (b'4' ∷ b'9' ∷ [])) refl refl refl) (omega arith) (omega arith) (omega arith)
      (omega arith) (omega arith) (omega arith) refl

pub nonzero_psk : IsText psk
nonzero_psk =
    (omega arith, (omega arith, (omega arith, (omega arith, (omega arith, (omega arith, tt))))))

put_joiner-delete_joiner_example :
    (l1 : JoinerList hash json) × (l2 : JoinerList hash json) × (ask hash json no_integer newest
        (λ j. [])
        prf
        3
        no_key
        (host no_joiners)
        put_joiner
        psk
        eui
      ≡ some (host l1, record { code = success_ok; content = none }))
    × (l1.vector ≡ entry psk eui ∷ [])
    × (ask hash json no_integer newest (λ j. []) prf 3 no_key (host l1) delete_joiner [] eui
        ≡ some (host l2, record { code = success_ok; content = none }))
    × (l2.vector ≡ [])
    × (l2.steering ≡ blank)
    × (l2.updated ≡ true)
put_joiner-delete_joiner_example =
    put_joiner-delete_joiner hash json no_integer newest (λ j. []) prf 3 no_key (host no_joiners)
      b'J' (b'0' ∷ b'1' ∷ b'N' ∷ b'M' ∷ b'E' ∷ []) eui [] (text psk) (text eui) no_joiners-IsSynced
      refl nonzero_psk (ground arith) refl (omega arith) refl refl
