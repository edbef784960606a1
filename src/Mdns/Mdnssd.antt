-- ===== src/Mdns/Mdnssd.antt =====
-- lib/borderrouter/src/agent/mdns_mdnssd.cpp: the publisher over the DNS-SD library. A service
-- reference is a number; what the library was asked is kept in `requests` and `released`, and what it
-- answers is an argument. `max_name` is `kDNSServiceMaxServiceName`. `none` is a failed assertion.
pub mod Records
pub mod Renamed
use commissioner.Prelude.{
  ℕ, zero, suc, ◌+◌, ◌%◌, ◌^◌, Bool, true, false, ◌&&◌, Option, none, some, List, [], ◌∷◌, ◌++◌,
  ltb, leb, ◌==◌, if◌then◌else◌, length, take, map,
}
use commissioner.Prelude.Chain.{◌>>=◌}
use commissioner.JoinerList.Json.{same_text}
use commissioner.BorderAgent.{MdnsState, idle, ready}

-- What the library is asked of a service: its text record, and its port when it is new.
pub data Request : Type 0 where
  register : List ℕ → List ℕ → ℕ → List ℕ → Request
  update : ℕ → List ℕ → Request

-- What `DNSServiceRegister` gives.
pub data Answer : Type 0 where
  refused no_reference : Answer
  reference : ℕ → Answer

pub record Service : Type 0 where
  pub name : List ℕ
  pub type : List ℕ
  pub service : ℕ

pub record PublisherMdnssd : Type 0 where
  pub services : List Service
  pub state : MdnsState
  pub requests : List Request
  pub released : List ℕ

abbrev pub max_size_of_txt_record : ℕ
max_size_of_txt_record = 128

abbrev pub max_size_of_service_type : ℕ
max_size_of_service_type = 64

-- One round of the loop over the pairs of a name and a value: the bytes of `txt` up to `cur`.
unfoldable pub add_record : List ℕ → List ℕ → List ℕ → Option (List ℕ)
add_record txt name value =
    let record_length = length name + 1 + length value in
    if ltb 0 (length name) && (ltb 0 (length value) && ltb record_length 255)
    then (if leb max_size_of_txt_record (length txt + record_length)
        then some txt
        else some (txt ++ (record_length ∷ (name ++ b'=' ∷ value))))
    else none

unfoldable pub add_records : List ℕ → List (List ℕ × List ℕ) → Option (List ℕ)
unfolding add_record
add_records txt [] = some txt
add_records txt ((name, value) ∷ pairs) =
    add_record txt name value >>= λ txt'. add_records txt' pairs

unfoldable pub make : PublisherMdnssd
make = record { services = []; state = idle; requests = []; released = [] }

-- `Start`, up to the call of the state handler.
unfoldable pub start : PublisherMdnssd → PublisherMdnssd
start p = record p { state = ready }

unfoldable pub is_started : PublisherMdnssd → Bool
is_started p = elim p.state [ ready ↦ true | idle ↦ false ]

unfoldable pub stop : PublisherMdnssd → PublisherMdnssd
stop p = elim p.state [
  | idle ↦ p
  | ready ↦ record p {
    services = [];
    released = p.released ++ map (λ (s : Service). s.service) p.services;
  }
]

module _ (max_name : ℕ) where
  -- `!strncmp(mName, aName, sizeof(mName)) && !strncmp(mType, aType, sizeof(mType))`.
  unfoldable pub is_service : List ℕ → List ℕ → Service → Bool
  is_service name type s =
      same_text (take max_name s.name) (take max_name name)
      && same_text (take max_size_of_service_type s.type) (take max_size_of_service_type type)

  unfoldable pub find_service : List ℕ → List ℕ → List Service → Option Service
  unfolding is_service
  find_service name type [] = none
  find_service name type (s ∷ services) =
      let rest = find_service name type services in if is_service name type s then some s else rest

  -- `strncpy` into both arrays.
  unfoldable pub new_service : List ℕ → List ℕ → ℕ → Service
  new_service name type service = record {
    name = take max_name name;
    type = take max_size_of_service_type type;
    service = service;
  }

  unfoldable pub record_service : List ℕ → List ℕ → ℕ → PublisherMdnssd → Option PublisherMdnssd
  unfolding find_service new_service
  record_service name type service p = elim (find_service name type p.services) [
    | some s ↦ if service == s.service then some p else none
    | none ↦ some (record p { services = p.services ++ new_service name type service ∷ [] })
  ]

  unfoldable pub erase_service : List ℕ → List ℕ → List Service → List Service
  unfolding is_service
  erase_service name type [] = []
  erase_service name type (s ∷ services) =
      let rest = erase_service name type services in
      if is_service name type s then services else s ∷ rest

  -- The last assertion fails for a service that was not found.
  unfoldable pub discard_service : List ℕ → List ℕ → ℕ → PublisherMdnssd → Option PublisherMdnssd
  unfolding find_service erase_service
  discard_service name type service p = elim (find_service name type p.services) [
    | none ↦ none
    | some s ↦
        if service == s.service
        then some (record p {
          services = erase_service name type p.services;
          released = p.released ++ service ∷ [];
        })
        else none
  ]

  -- `add` is the flag of the reply, `failed` its error.
  unfoldable pub handle_service_register_result :
      Bool → Bool → List ℕ → List ℕ → ℕ → PublisherMdnssd → Option PublisherMdnssd
  unfolding record_service discard_service
  handle_service_register_result failed add name type service p =
      if failed
      then discard_service name type service p
      else if add
      then record_service name type service p
      else discard_service name type service p

  -- The result is the publisher and whether the library refused.
  unfoldable pub publish_service :
      ℕ
      → List ℕ
      → List ℕ
      → List (List ℕ × List ℕ)
      → Answer
      → PublisherMdnssd
      → Option (PublisherMdnssd × Bool)
  unfolding add_records find_service record_service
  publish_service port name type pairs answer p = add_records [] pairs >>= λ txt.
      elim (find_service name type p.services) [
        | some s ↦ some (record p { requests = p.requests ++ update s.service txt ∷ [] }, false)
        | none ↦
            let asked = record p {
              requests = p.requests ++ register name type (port % 2 ^ 16) txt ∷ [];
            } in
            elim answer [
              | refused ↦ some (asked, true)
              | no_reference ↦ some (asked, false)
              | reference service ↦
                  record_service name type service asked >>= λ p'. some (p', false)
            ]
      ]
