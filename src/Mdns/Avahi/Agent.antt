-- ===== src/Mdns/Avahi/Agent.antt =====
-- border_agent.cpp over the publisher of mdns_avahi.cpp.
use commissioner.Prelude.{
  ℕ, ◌≡◌, ◌⊎◌, inl, inr, refl, sym, ◌∙◌, Bool, true, false, Option, none, some, List, [], ◌∷◌,
  Bool-cases,
}
use commissioner.Prelude.Yields.{
  Yields, nothing, gives, Yields-bind, Yields-option, Yields-if, Yields-guard, holds-if,
}
use commissioner.BorderAgent.{Publisher, BorderAgent, MdnsState, idle, ready, is_named}
use commissioner.BorderAgent.Publishing.{
  Stops, StaysStopped, Event, mdns_state, Reach, IsUp, handle, Reach-IsUp,
}
use commissioner.Mdns.Avahi.{
  PublisherAvahi, Outcome, start, is_started, reset, release, stop, publish_service, add_txts,
  has_service,
}

-- "_meshcop._udp.".
abbrev pub service_type : List ℕ
service_type =
    b'_' ∷ b'm' ∷ b'e' ∷ b's' ∷ b'h' ∷ b'c' ∷ b'o' ∷ b'p' ∷ b'.' ∷ b'_' ∷ b'u' ∷ b'd' ∷ b'p' ∷ b'.'
    ∷ []

unequal : false ≡ true → ⊥
unequal h = cc

release-is_started : (p : PublisherAvahi) → is_started (release p) ≡ false
unfolding is_started release reset
release-is_started p = elim (Bool-cases p.group) [
  | inl g ↦ elim (Bool-cases p.client) [
    | inl c ↦ rw (g, c, release, reset, is_started) refl
    | inr c ↦ rw (g, c, release, reset, is_started) refl
  ]
  | inr g ↦ elim (Bool-cases p.client) [
    | inl c ↦ rw (g, c, release, reset, is_started) refl
    | inr c ↦ rw (g, c, release, reset, is_started) refl
  ]
]

stop-is_started : (p : PublisherAvahi) → is_started (stop (λ st q. q) p) ≡ false
unfolding stop
stop-is_started p =
    holds-if (λ q. is_started q ≡ false) p.client (release p) (release p) (release-is_started p)
      (release-is_started p)

publish_service-is_started :
    (list_size text_at label_max : ℕ) (buffer : List ℕ) (accepted : Bool) (port : ℕ)
    (name type : List ℕ) (pairs : List (List ℕ × List ℕ)) (p : PublisherAvahi)
    → Yields
        (λ (x : PublisherAvahi × Outcome). is_started x.0 ≡ is_started p)
        (publish_service list_size text_at label_max buffer accepted port name type pairs p)
unfolding publish_service is_started
publish_service-is_started list_size text_at label_max buffer accepted port name type pairs p =
    publishes p.state refl
  where
    publishes :
        (st : MdnsState)
        → p.state ≡ st
        → Yields
            (λ (x : PublisherAvahi × Outcome). is_started x.0 ≡ is_started p)
            (publish_service list_size text_at label_max buffer accepted port name type pairs p)
    publishes idle e = rw (e, publish_service) (gives refl)
    publishes ready e =
        rw (e, publish_service)
          (Yields-bind (add_txts list_size text_at label_max buffer 0 [] pairs) λ txts.
            Yields-option txts (gives refl) λ last. Yields-guard p.group λ g.
              Yields-if accepted
                (Yields-if (has_service list_size text_at label_max name type port p.services)
                  (gives refl) (gives refl))
                (gives refl))

-- `created` and `accepted` are what the library answers in a state, of which its calls are a part;
-- `buffer` is the memory of the array for the text records. A publisher that is `none` has gone through
-- undefined behaviour.
module _ (list_size text_at label_max : ℕ) (created accepted : PublisherAvahi → Bool)
    (buffer : List ℕ) where
  abbrev pub is_running : Option PublisherAvahi → Bool
  is_running none = false
  is_running (some p) = is_started p

  abbrev pub start_if : Option PublisherAvahi → Option PublisherAvahi
  start_if none = none
  start_if (some p) = some (start (created p) p)

  -- The border agent does nothing when it is told that the publisher is idle.
  abbrev pub stop_if : Option PublisherAvahi → Option PublisherAvahi
  stop_if none = none
  stop_if (some p) = some (stop (λ st q. q) p)

  abbrev pub published_of : Option (PublisherAvahi × Outcome) → Option PublisherAvahi
  published_of none = none
  published_of (some r) = some r.0

  -- What the border agent hands to `PublishService`.
  abbrev pub publish_if : Option PublisherAvahi → ℕ → List ℕ → List ℕ → Option PublisherAvahi
  publish_if none port name id = none
  publish_if (some p) port name id = published_of (
      publish_service list_size text_at label_max buffer (accepted p) port name service_type
        ((b'n' ∷ b'n' ∷ [], name) ∷ (b'x' ∷ b'p' ∷ [], id) ∷ []) p)

  abbrev pub avahi : Publisher
  avahi = record {
    State = Option PublisherAvahi;
    is_started = is_running;
    start = start_if;
    stop = stop_if;
    publish = publish_if;
  }

  avahi-Stops : Stops avahi
  avahi-Stops none = refl
  avahi-Stops (some p) = stop-is_started p

  avahi-StaysStopped : StaysStopped avahi
  avahi-StaysStopped none port name id h = h
  avahi-StaysStopped (some p) port name id h =
      kept _
        (publish_service-is_started list_size text_at label_max buffer (accepted p) port name
          service_type ((b'n' ∷ b'n' ∷ [], name) ∷ (b'x' ∷ b'p' ∷ [], id) ∷ []) p)
        h
    where
      kept :
          (o : Option (PublisherAvahi × Outcome))
          → Yields (λ (x : PublisherAvahi × Outcome). is_started x.0 ≡ is_started p) o
          → is_running (published_of o) ≡ true
          → is_started p ≡ true
      kept none nothing h = absurd (unequal h)
      kept (some x) (gives same) h = sym same ∙ h

  -- Over the Avahi publisher, from a border agent whose publisher is not started: whatever Thread, the
  -- network's names and the publisher report, and whatever the library answers and does with the
  -- publisher short of starting or stopping it, the publisher is started only if Thread is up and the
  -- network has a name; and the border agent handles the next event without a failed assertion, unless a
  -- publisher that is not started reports that it is ready while the network has no name. A publisher
  -- that has gone through undefined behaviour counts as not started.
  pub avahi-IsUp :
      (b c : BorderAgent avahi)
      → is_running b.publisher ≡ false
      → Reach avahi b c
      → IsUp avahi c
        × ((e : Event avahi)
            → ((d : BorderAgent avahi) × (handle avahi e c ≡ some d))
              ⊎ ((e ≡ mdns_state ready)
                  × (is_named avahi c ≡ false)
                  × (is_running c.publisher ≡ false)))
  avahi-IsUp b c s r = Reach-IsUp avahi avahi-Stops avahi-StaysStopped b c s r
