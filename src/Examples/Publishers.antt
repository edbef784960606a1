-- ===== src/Examples/Publishers.antt =====
-- The theorems on the publishers.
use commissioner.Prelude.{
  ℕ, ◌≡◌, ◌≤◌, ◌⊎◌, refl, Bool, true, false, Option, none, some, List, [], ◌∷◌, arith, length, map,
  replicate, All, length-replicate,
}
use commissioner.BorderAgent.{
  MdnsState, idle, ready, BorderAgent, is_named, set_thread_started, handle_thread_change,
  start_publish_service,
}
use commissioner.BorderAgent.Publishing.{
  Event, thread_state, mdns_state, start as begin, step, IsUp, handle,
}
use commissioner.Mdns.Avahi.Agent.{avahi, is_running, avahi-IsUp}
use commissioner.Prelude.Yields.{Yields, nothing, gives}
use commissioner.Mdns.Mdnssd.{
  PublisherMdnssd, reference, add_records, stop as stop_mdnssd, publish_service as publish_mdnssd,
  is_service, new_service, handle_service_register_result,
}
use commissioner.Mdns.Mdnssd.Records.{parse_txt, text_of_pair, encode_txt, add_records-parse_txt}
use commissioner.Mdns.Mdnssd.Renamed.{renamed}
use commissioner.Mdns.Avahi.{
  PublisherAvahi, Outcome, new_client, new_group, commit_group, add_service, running, start,
  is_started, handle_client_state, publish_service,
}
use commissioner.Mdns.Avahi.Mirror.{
  held_after, here, next, starts, runs, IsMirrored, publish_service-IsMirrored, Reach-IsMirrored,
}
use commissioner.Mdns.Poller.{AvahiTimeout, Timeval, update_timeout}
use commissioner.Mdns.Poller.Timeout.{AtMost, Serves, update_timeout-Serves}

abbrev name : List ℕ
name = b'h' ∷ b'o' ∷ b'm' ∷ b'e' ∷ []

abbrev other_name : List ℕ
other_name = b'h' ∷ b'o' ∷ b'm' ∷ b'2' ∷ []

abbrev type : List ℕ
type = b'_' ∷ b'm' ∷ b'e' ∷ b's' ∷ b'h' ∷ []

abbrev pairs : List (List ℕ × List ℕ)
pairs = (b'n' ∷ b'n' ∷ [], name) ∷ (b'x' ∷ b'p' ∷ [], b'1' ∷ b'2' ∷ []) ∷ []

add_records-parse_txt_example :
    (txt : List ℕ) × (add_records [] pairs ≡ some txt)
    × (length txt ≤ 128)
    × (parse_txt 2 txt ≡ map text_of_pair pairs)
add_records-parse_txt_example =
    add_records-parse_txt pairs ((omega arith, omega arith), ((omega arith, omega arith), tt))
      (omega arith)

abbrev started : PublisherMdnssd
started = record { services = []; state = ready; requests = []; released = [] }

pairs_txt : add_records [] pairs ≡ some (encode_txt pairs)
unfolding add_records
pairs_txt = refl

renamed_example :
    (q : PublisherMdnssd) × (r : PublisherMdnssd) × (publish_mdnssd 64 49191 name type pairs
        (reference 5)
        started
      ≡ some (q, false))
    × (handle_service_register_result 64 false true other_name type 5 q ≡ some r)
    × ((stop_mdnssd r).released ≡ 5 ∷ 5 ∷ [])
unfolding is_service new_service
renamed_example =
    renamed 64 started 49191 name other_name type pairs (encode_txt pairs) 5 refl refl pairs_txt
      refl

abbrev nothing_yet : PublisherAvahi
nothing_yet = record { client = false; group = false; state = idle; services = []; calls = [] }

abbrev array : List ℕ
array = replicate 120 0

-- An owner that publishes a service as soon as the publisher is ready.
abbrev or_stay : PublisherAvahi → Option (PublisherAvahi × Outcome) → PublisherAvahi
or_stay p none = p
or_stay p (some r) = r.0

abbrev owner : MdnsState → PublisherAvahi → PublisherAvahi
owner idle p = p
owner ready p = or_stay p (publish_service 24 16 63 array true 49191 name type [] p)

or_stay-IsMirrored :
    (p : PublisherAvahi) (o : Option (PublisherAvahi × Outcome))
    → IsMirrored 24 16 63 p
    → Yields (λ (x : PublisherAvahi × Outcome). IsMirrored 24 16 63 x.0) o
    → IsMirrored 24 16 63 (or_stay p o)
or_stay-IsMirrored p none v nothing = v
or_stay-IsMirrored p (some r) v (gives w) = w

owner-IsMirrored :
    (st : MdnsState) (p : PublisherAvahi) → IsMirrored 24 16 63 p → IsMirrored 24 16 63 (owner st p)
owner-IsMirrored idle p v = v
owner-IsMirrored ready p v =
    or_stay-IsMirrored p _ v (publish_service-IsMirrored 24 16 63 array true 49191 name type [] p v)

abbrev running_publisher : PublisherAvahi
running_publisher = record {
  client = true;
  group = true;
  state = ready;
  services = record { name = name; type = type; port = 49191 } ∷ [];
  calls = new_client ∷ new_group ∷ add_service name type 49191 [] ∷ commit_group ∷ [];
}

running_lem :
    handle_client_state owner true running (start true nothing_yet) ≡ some running_publisher
unfolding handle_client_state start publish_service
running_lem = refl

Reach-IsMirrored_example :
    held_after 24 16 63 [] running_publisher.calls ≡ running_publisher.services
Reach-IsMirrored_example =
    Reach-IsMirrored 24 16 63 owner {p = nothing_yet} owner-IsMirrored
      (record { mirrored = refl; grouped = λ e. refl })
      (next (next here (starts true)) (runs true running_lem))

abbrev yes : PublisherAvahi → Bool
yes p = true

abbrev stopped_agent : BorderAgent (avahi 24 16 63 yes yes array)
stopped_agent = record {
  publisher = some nothing_yet;
  ext_pan_id = replicate 8 1;
  network_name = b'n' ∷ [];
  thread_started = false;
}

abbrev started_agent : BorderAgent (avahi 24 16 63 yes yes array)
started_agent = record stopped_agent {
  publisher = some (record nothing_yet { client = true; calls = new_client ∷ [] });
  thread_started = true;
}

starts_lem :
    handle (avahi 24 16 63 yes yes array) (thread_state true) stopped_agent ≡ some started_agent
unfolding handle set_thread_started handle_thread_change start_publish_service start is_started
starts_lem = refl

avahi-IsUp_example :
    IsUp (avahi 24 16 63 yes yes array) started_agent
    × ((e : Event (avahi 24 16 63 yes yes array))
        → ((d : BorderAgent (avahi 24 16 63 yes yes array)) × (handle
                (avahi 24 16 63 yes yes array)
                e
                started_agent
              ≡ some d))
          ⊎ ((e ≡ mdns_state ready)
              × (is_named (avahi 24 16 63 yes yes array) started_agent ≡ false)
              × (is_running 24 16 63 yes yes array started_agent.publisher ≡ false)))
unfolding is_started
avahi-IsUp_example =
    avahi-IsUp 24 16 63 yes yes array stopped_agent started_agent refl
      (step (thread_state true) begin starts_lem)

abbrev one_service : PublisherAvahi
one_service = record {
  client = true;
  group = true;
  state = ready;
  services = record { name = name; type = type; port = 49191 } ∷ [];
  calls = add_service name type 49191 [] ∷ [];
}

array-length : length array ≡ 120
array-length = length-replicate {A = ℕ} 120 0

abbrev timers : List AvahiTimeout
timers = record { address = 1; timeout = 6000 } ∷ record { address = 2; timeout = 0 } ∷ []

abbrev two_seconds : Timeval
two_seconds = record { tv_sec = 2; tv_usec = 900000 }

update_timeout-Serves_example :
    AtMost (update_timeout 5000 timers two_seconds) two_seconds
    × All (Serves 5000 (update_timeout 5000 timers two_seconds)) timers
update_timeout-Serves_example =
    update_timeout-Serves 5000 timers two_seconds (omega arith) (omega arith) (omega arith)
      ((omega arith, omega arith), ((omega arith, omega arith), tt))
