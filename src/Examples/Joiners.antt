-- ===== src/Examples/Joiners.antt =====
-- The theorems on the joiner list, with a small model of JSON and a stand-in for the hash.
use commissioner.Prelude.{
  ℕ, ◌≡◌, ◌⊎◌, refl, ap, sym, subst, true, false, Option, none, some, List, [], ◌∷◌, ◌++◌, arith,
  ◌==◌, if◌then◌else◌, take, replicate, All,
}
use commissioner.Prelude.Chain.{◌>>=◌}
use commissioner.Utils.SteeringData.{SteeringData, init}
use commissioner.Utils.SteeringData.Filter.{Matches, add_all, init-add_all-Matches}
use commissioner.JoinerList.{
  JoinerList, edit, remove, write, StatusCode, success_ok, client_error, client_error_not_found,
}
use commissioner.JoinerList.Json.{Jansson, same_text, psk_key, eui64_key}
use commissioner.JoinerList.Synced.{IsSynced, without, has_eui, blank, id_of}
use commissioner.JoinerList.Operations.{entry, empty_IsSynced, edit_lem, remove_lem}
use commissioner.JoinerList.Batch.{entries, IsBroken, Readable, write_lem, write_partial-IsBroken}
use commissioner.Plugin.Parameters.{
  network_name_key, xpanid_key, agent_pass_key, agent_addr_key, agent_port_key,
}
use commissioner.JoinerList.Matching.{here, next, edits, Reach-Matches}

pub data Value : Type 0 where
  empty : Value
  text : List ℕ → Value
  with_key : Value → List ℕ → Value → Value
  nil : Value
  cons : Value → Value → Value

abbrev pub get : Value → List ℕ → Option Value
get (with_key o k v) j = if same_text k j then some v else get o j
get _ j = none

abbrev pub elements_of : Value → Option (List Value)
elements_of nil = some []
elements_of (cons j js) = elements_of js >>= λ rest. some (j ∷ rest)
elements_of _ = none

abbrev pub text_of : Value → Option (List ℕ)
text_of (text t) = some t
text_of _ = none

abbrev pub psk : List ℕ
psk = b'J' ∷ b'0' ∷ b'1' ∷ b'N' ∷ b'M' ∷ b'E' ∷ []

abbrev pub eui : List ℕ
eui =
    b'0' ∷ b'0' ∷ b'1' ∷ b'1' ∷ b'2' ∷ b'2' ∷ b'3' ∷ b'3' ∷ b'4' ∷ b'4' ∷ b'5' ∷ b'5' ∷ b'6' ∷ b'6'
    ∷ b'7' ∷ b'7' ∷ []

abbrev pub joiner : Value
joiner = with_key (with_key empty psk_key (text psk)) eui64_key (text eui)

abbrev pub name_only : Value
name_only = with_key empty network_name_key (text (b'n' ∷ []))

abbrev pub parameters : Value
parameters =
    with_key
      (with_key (with_key (with_key name_only xpanid_key (text eui)) agent_pass_key (text psk))
        agent_addr_key (text (b':' ∷ b':' ∷ b'1' ∷ [])))
      agent_port_key (text (b'4' ∷ b'9' ∷ []))

-- `1` stands for an array with one joiner, `2` for one with a bad element behind it, `3` for the
-- parameters of a network and `4` for its name.
abbrev pub parse : List ℕ → Option Value
parse [] = none
parse (c ∷ cs) =
    if c == 1
    then some (cons joiner nil)
    else if c == 2
    then some (cons joiner (cons empty nil))
    else if c == 3
    then some parameters
    else if c == 4
    then some name_only
    else none

pub same_text_refl : (t : List ℕ) → same_text t t ≡ true
same_text_refl [] = refl
same_text_refl (c ∷ t) = ground (arith, same_text_refl t)

abbrev pub json : Jansson
json = record {
  Json = Value;
  loads = parse;
  elements = elements_of;
  object_get = get;
  string_value = text_of;
  string = λ t. some (text t);
  empty_object = empty;
  object_set = with_key;
  dumps = λ js. [];
  get-set_self = λ o k v. rw (same_text_refl k) refl;
  get-set_ne = λ o k j v h. rw h refl;
  value-string = λ t j e. sym (ap (λ x. elim x [ none ↦ none | some y ↦ text_of y ]) e);
}

abbrev pub hash : List ℕ → List ℕ
hash m = take 32 (m ++ replicate 32 0)

abbrev pub no_joiners : JoinerList hash json
no_joiners = record { array = []; vector = []; steering = blank; updated = true }

pub no_joiners-IsSynced : IsSynced hash json no_joiners
no_joiners-IsSynced = empty_IsSynced hash json true

edit_lem_example :
    (l' : JoinerList hash json) × (edit hash json no_joiners psk eui ≡ some (l', success_ok))
    × (l'.vector ≡ without eui [] ++ entry psk eui ∷ [])
    × (l'.updated ≡ true)
    × IsSynced hash json l'
edit_lem_example =
    edit_lem hash json no_joiners psk eui (text psk) (text eui) no_joiners-IsSynced refl
      (omega arith) refl refl

init-add_all-Matches_example :
    (s' : SteeringData) × ((init blank 16 >>= λ t. add_all t (psk ∷ eui ∷ [])) ≡ some s')
    × (s'.filter_length ≡ 16)
    × All (Matches s') (psk ∷ eui ∷ [])
init-add_all-Matches_example =
    init-add_all-Matches blank 16 (psk ∷ eui ∷ []) (omega arith) (omega arith)

abbrev pub result : Option (JoinerList hash json × StatusCode) → JoinerList hash json
result none = no_joiners
result (some r) = r.0

abbrev pub one_joiner : JoinerList hash json
one_joiner = result (edit hash json no_joiners psk eui)

pub one_joiner_lem :
    (edit hash json no_joiners psk eui ≡ some (one_joiner, success_ok))
    × IsSynced hash json one_joiner
    × (one_joiner.updated ≡ true)
one_joiner_lem =
    let (l', e, v, u, synced) =
      edit_lem hash json no_joiners psk eui (text psk) (text eui) no_joiners-IsSynced refl
        (omega arith) refl refl in
    (
      subst (λ o. o ≡ some (result o, success_ok)) (sym e) refl,
      subst (λ o. IsSynced hash json (result o)) (sym e) synced,
      subst (λ o. (result o).updated ≡ true) (sym e) u,
    )

Reach-Matches_example : All (λ i. Matches one_joiner.steering (id_of hash i)) one_joiner.vector
Reach-Matches_example =
    Reach-Matches hash json no_joiners-IsSynced (
      next here (edits psk eui (text psk) (text eui) refl (omega arith) refl refl one_joiner_lem.0))

remove_lem_example :
    ((has_eui eui one_joiner.vector ≡ true)
      × (l' : JoinerList hash json) × (remove hash json one_joiner eui ≡ some (l', success_ok))
      × (l'.vector ≡ without eui one_joiner.vector)
      × (l'.updated ≡ true)
      × IsSynced hash json l')
    ⊎ ((has_eui eui one_joiner.vector ≡ false)
        × (remove hash json one_joiner eui ≡ some (one_joiner, client_error_not_found)))
remove_lem_example = remove_lem hash json one_joiner eui one_joiner_lem.1

joiner-Readable : Readable hash json joiner psk eui
joiner-Readable = record {
  psk_value = text psk;
  eui_value = text eui;
  has_psk = refl;
  has_eui = refl;
  psk_is = refl;
  eui_is = refl;
  psk_fits = omega arith;
  eui_fits = omega arith;
}

write_lem_example :
    (l' : JoinerList hash json) × (write hash json no_joiners (1 ∷ []) ≡ some (l', success_ok))
    × (l'.vector ≡ entries ((psk, eui) ∷ []))
    × (l'.updated ≡ true)
    × IsSynced hash json l'
write_lem_example =
    write_lem hash json no_joiners (1 ∷ []) (cons joiner nil) (joiner ∷ []) ((psk, eui) ∷ [])
      no_joiners-IsSynced refl refl (joiner-Readable, tt)

write_partial-IsBroken_example :
    (l' : JoinerList hash json) × (write hash json no_joiners (2 ∷ []) ≡ some (l', client_error))
    × IsBroken hash json l'
write_partial-IsBroken_example =
    write_partial-IsBroken hash json no_joiners (2 ∷ []) (cons joiner (cons empty nil)) joiner empty
      [] [] (psk, eui) [] no_joiners-IsSynced refl refl (joiner-Readable, tt) refl
