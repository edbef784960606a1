-- ===== src/Mdns/Avahi.antt =====
-- lib/borderrouter/src/agent/mdns_avahi.cpp: the publisher over the Avahi client library. `calls` is
-- what the library was asked and has done; whether it does is an argument. `AvahiStringList` takes
-- `list_size` bytes, of which its text starts at `text_at`; `label_max` is `AVAHI_LABEL_MAX`. `none` is
-- a write past an array, or a call on a group that is null.
pub mod Mirror
pub mod Renamed
pub mod Agent
pub mod Records
use commissioner.Prelude.{
  ℕ, zero, suc, ◌+◌, ◌*◌, ◌/◌, ◌%◌, ◌^◌, Bool, true, false, ◌&&◌, Option, none, some, List, [], ◌∷◌,
  ◌++◌, ltb, leb, ◌==◌, if◌then◌else◌, length, take, not,
}
use commissioner.Prelude.Chain.{◌>>=◌}
use commissioner.Common.Tlv.{store}
use commissioner.JoinerList.Json.{same_text}
use commissioner.BorderAgent.{MdnsState, idle, ready}

pub data Call : Type 0 where
  new_client free_client new_group reset_group commit_group : Call
  add_service : List ℕ → List ℕ → ℕ → List (List ℕ) → Call
  update_service : List ℕ → List ℕ → List (List ℕ) → Call

pub data ClientState : Type 0 where
  running failure collision registering connecting : ClientState

pub record Service : Type 0 where
  pub name : List ℕ
  pub type : List ℕ
  pub port : ℕ

-- `client` and `group` are whether the pointers are set.
pub record PublisherAvahi : Type 0 where
  pub client : Bool
  pub group : Bool
  pub state : MdnsState
  pub services : List Service
  pub calls : List Call

pub data Outcome : Type 0 where
  published mdns_error not_ready too_long : Outcome

unfoldable pub make : PublisherAvahi
make = record { client = false; group = false; state = idle; services = []; calls = [] }

abbrev pub call : Call → PublisherAvahi → PublisherAvahi
call c p = record p { calls = p.calls ++ c ∷ [] }

unfoldable pub start : Bool → PublisherAvahi → PublisherAvahi
start created p =
    if created then call new_client (record p { client = true }) else record p { client = false }

unfoldable pub is_started : PublisherAvahi → Bool
is_started p = p.client

unfoldable pub reset : PublisherAvahi → PublisherAvahi
reset p = if p.group then call reset_group p else p

-- `Stop`, up to the call of the state handler.
unfoldable pub release : PublisherAvahi → PublisherAvahi
unfolding reset
release p =
    let p' = reset (record p { services = [] }) in
    if p'.client
    then call free_client (record p' { client = false; group = false; state = idle })
    else p'

-- `on_state` is the state handler of the publisher's owner.
unfoldable pub stop :
    (MdnsState → PublisherAvahi → PublisherAvahi) → PublisherAvahi → PublisherAvahi
unfolding release
stop on_state p = if p.client then on_state idle (release p) else release p

unfoldable pub handle_group_state : PublisherAvahi → PublisherAvahi
handle_group_state p = record p { group = true }

unfoldable pub create_group : Bool → PublisherAvahi → PublisherAvahi
create_group created p =
    if p.group then p else if created then call new_group (record p { group = true }) else p

unfoldable pub handle_client_state :
    (MdnsState → PublisherAvahi → PublisherAvahi)
    → Bool
    → ClientState
    → PublisherAvahi
    → Option PublisherAvahi
unfolding create_group reset
handle_client_state on_state created running p =
    let p' = on_state ready (create_group created (record p { state = ready })) in
    if p'.group then some (call commit_group p') else none
handle_client_state on_state created failure p = some (on_state idle (record p { state = idle }))
handle_client_state on_state created collision p = some (reset p)
handle_client_state on_state created registering p = some (reset p)
handle_client_state on_state created connecting p = some p

module _ (list_size text_at label_max : ℕ) where
  abbrev pub buffer_size : ℕ
  buffer_size = 128 / list_size * list_size

  -- One round of the loop over the pairs: the buffer and how much of it is used, up to a pointer's eight
  -- bytes. The inner `none` is a record that does not fit.
  unfoldable pub add_txt : List ℕ → ℕ → List ℕ → List ℕ → Option (Option (List ℕ × ℕ))
  add_txt buffer used name value =
      let needed = list_size + length name + length value in
      let text = name ++ b'=' ∷ value in
      if ltb (used + needed) buffer_size
      then (store buffer (used + text_at) (text ++ 0 ∷ []) >>= λ buffer'.
          some (some (buffer', (used + text_at + length text + 7) / 8 * 8)))
      else some none

  -- The loop; the result is the list behind `last`, which has the newest record first.
  unfoldable pub add_txts :
      List ℕ → ℕ → List (List ℕ) → List (List ℕ × List ℕ) → Option (Option (List (List ℕ)))
  unfolding add_txt
  add_txts buffer used last [] = some (some last)
  add_txts buffer used last ((name, value) ∷ pairs) = add_txt buffer used name value >>= λ added.
      elim added [
        | none ↦ some none
        | some (buffer', used') ↦ add_txts buffer' used' ((name ++ b'=' ∷ value) ∷ last) pairs
      ]

  -- `strncpy` into both arrays.
  unfoldable pub new_service : List ℕ → List ℕ → ℕ → Service
  new_service name type port = record {
    name = take label_max name;
    type = take label_max type;
    port = port;
  }

  unfoldable pub is_service : List ℕ → List ℕ → ℕ → Service → Bool
  is_service name type port s =
      same_text s.name (take label_max name)
      && (same_text s.type (take label_max type) && s.port == port)

  unfoldable pub has_service : List ℕ → List ℕ → ℕ → List Service → Bool
  unfolding is_service
  has_service name type port [] = false
  has_service name type port (s ∷ services) =
      let rest = has_service name type port services in
      if is_service name type port s then true else rest

  -- `buffer` is the memory of the local array, `accepted` whether the library does what it is asked.
  unfoldable pub publish_service :
      List ℕ
      → Bool
      → ℕ
      → List ℕ
      → List ℕ
      → List (List ℕ × List ℕ)
      → PublisherAvahi
      → Option (PublisherAvahi × Outcome)
  unfolding add_txts has_service new_service
  publish_service buffer accepted port name type pairs p = elim p.state [
    | idle ↦ some (p, not_ready)
    | ready ↦ add_txts buffer 0 [] pairs >>= λ txts. elim txts [
      | none ↦ some (p, too_long)
      | some last ↦
          if not p.group
          then none
          else if accepted
          then if has_service name type port p.services
            then some (call (update_service name type last) p, published)
            else some (
              call (add_service name type port last)
                  (record p { services = p.services ++ new_service name type port ∷ [] }),
              published,
            )
          else some (p, mdns_error)
    ]
  ]
