-- ===== src/Mdns/Avahi/Mirror.antt =====
-- mdns_avahi.cpp: the publisher's record of its services, and the calls on the library.
use commissioner.Prelude.{
  ℕ, ◌≡◌, refl, ap, ◌∙◌, subst, Bool, true, false, some, List, [], ◌∷◌, ◌++◌,
}
use commissioner.BorderAgent.{MdnsState, idle, ready}
use commissioner.Mdns.Avahi.{
  Call, new_client, free_client, new_group, reset_group, commit_group, add_service, update_service,
  running, failure, Service, PublisherAvahi, Outcome, call, start, reset, release, stop,
  handle_group_state, create_group, handle_client_state, new_service, has_service, add_txts,
  publish_service,
}
use commissioner.Prelude.Yields.{
  Yields, nothing, gives, yielded, Yields-bind, Yields-option, Yields-if, Yields-guard, holds-if,
}

module _ (list_size text_at label_max : ℕ) where
  -- What a call that the library has accepted does to the services of the entry group.
  abbrev pub hold : List Service → Call → List Service
  hold held reset_group = []
  hold held free_client = []
  hold held (add_service name type port txt) =
      held ++ new_service list_size text_at label_max name type port ∷ []
  hold held _ = held

  abbrev pub held_after : List Service → List Call → List Service
  held_after held [] = held
  held_after held (c ∷ calls) = held_after (hold held c) calls

  pub held_after-append :
      (held : List Service) (calls : List Call) (c : Call)
      → held_after held (calls ++ c ∷ []) ≡ hold (held_after held calls) c
  held_after-append held [] c = refl
  held_after-append held (d ∷ calls) c = held_after-append (hold held d) calls c

  -- The accepted calls add up to the services that the publisher has recorded; without a group there are
  -- none.
  pub record IsMirrored (p : PublisherAvahi) : Type 0 where
    pub mirrored : held_after [] p.calls ≡ p.services
    pub grouped : p.group ≡ false → p.services ≡ []

  -- The publisher after a call that the library did.
  called :
      (p : PublisherAvahi) (c : Call) (services : List Service)
      → hold (held_after [] p.calls) c ≡ services
      → (p.group ≡ false → services ≡ [])
      → IsMirrored (call c (record p { services = services }))
  called p c services h g = record { mirrored = held_after-append [] p.calls c ∙ h; grouped = g }

  release-IsMirrored : (p : PublisherAvahi) → IsMirrored p → IsMirrored (release p)
  unfolding release reset
  release-IsMirrored p v = stops p.group p.client refl refl
    where
      emptied : p.group ≡ false → held_after [] p.calls ≡ []
      emptied e = v.mirrored ∙ v.grouped e

      wiped : held_after [] (p.calls ++ reset_group ∷ []) ≡ []
      wiped = held_after-append [] p.calls reset_group

      stops : (g c : Bool) → p.group ≡ g → p.client ≡ c → IsMirrored (release p)
      stops true true eg ec =
          rw (eg, ec, release, reset)
            (record {
              mirrored = held_after-append [] (p.calls ++ reset_group ∷ []) free_client;
              grouped = λ e. refl;
            })
      stops true false eg ec =
          rw (eg, ec, release, reset) (record { mirrored = wiped; grouped = λ e. refl })
      stops false true eg ec =
          rw (eg, ec, release, reset)
            (record { mirrored = held_after-append [] p.calls free_client; grouped = λ e. refl })
      stops false false eg ec =
          rw (eg, ec, release, reset) (record { mirrored = emptied eg; grouped = λ e. refl })

  start-IsMirrored :
      (created : Bool) (p : PublisherAvahi) → IsMirrored p → IsMirrored (start created p)
  unfolding start
  start-IsMirrored true p v = record {
    mirrored = held_after-append [] p.calls new_client ∙ v.mirrored;
    grouped = v.grouped;
  }
  start-IsMirrored false p v = record { mirrored = v.mirrored; grouped = v.grouped }

  create_group-IsMirrored :
      (created : Bool) (p : PublisherAvahi) → IsMirrored p → IsMirrored (create_group created p)
  unfolding create_group
  create_group-IsMirrored created p v = creates created p.group refl
    where
      creates : (c g : Bool) → p.group ≡ g → IsMirrored (create_group c p)
      creates c true e = subst IsMirrored (rw (e, create_group) refl) v
      creates true false e =
          rw (e, create_group)
            (record {
              mirrored = held_after-append [] p.calls new_group ∙ v.mirrored;
              grouped = λ h. v.grouped e;
            })
      creates false false e = subst IsMirrored (rw (e, create_group) refl) v

  pub publish_service-IsMirrored :
      (buffer : List ℕ) (accepted : Bool) (port : ℕ) (name type : List ℕ)
      (pairs : List (List ℕ × List ℕ)) (p : PublisherAvahi)
      → IsMirrored p
      → Yields
          (λ (x : PublisherAvahi × Outcome). IsMirrored x.0)
          (publish_service list_size text_at label_max buffer accepted port name type pairs p)
  unfolding publish_service
  publish_service-IsMirrored buffer accepted port name type pairs p v = publishes p.state refl
    where
      grouped : p.group ≡ true → p.group ≡ false → ⊥
      grouped g f = cc

      publishes :
          (st : MdnsState)
          → p.state ≡ st
          → Yields
              (λ (x : PublisherAvahi × Outcome). IsMirrored x.0)
              (publish_service list_size text_at label_max buffer accepted port name type pairs p)
      publishes idle e = rw (e, publish_service) (gives v)
      publishes ready e =
          rw (e, publish_service)
            (Yields-bind (add_txts list_size text_at label_max buffer 0 [] pairs) λ txts.
              Yields-option txts (gives v) λ last. Yields-guard p.group λ g.
                Yields-if accepted
                  (Yields-if (has_service list_size text_at label_max name type port p.services)
                    (gives
                      (called p (update_service name type last) p.services v.mirrored v.grouped))
                    (gives (
                      called p (add_service name type port last)
                        (p.services ++ new_service list_size text_at label_max name type port ∷ [])
                        (ap (λ h. h ++ new_service list_size text_at label_max name type port ∷ [])
                          v.mirrored)
                        λ f. absurd (grouped g f))))
                  (gives v))

  module _ (on_state : MdnsState → PublisherAvahi → PublisherAvahi) where
    -- What happens to a publisher while the host keeps its name.
    pub data Step : PublisherAvahi → PublisherAvahi → Type 0 where
      starts : {p : PublisherAvahi} (created : Bool) → Step p (start created p)
      stops : {p : PublisherAvahi} → Step p (stop on_state p)
      groups : {p : PublisherAvahi} → Step p (handle_group_state p)
      runs :
          {p q : PublisherAvahi} (created : Bool)
          → handle_client_state on_state created running p ≡ some q
          → Step p q
      fails :
          {p q : PublisherAvahi} (created : Bool)
          → handle_client_state on_state created failure p ≡ some q
          → Step p q
      publishes :
          {p q : PublisherAvahi} {o : Outcome} (buffer : List ℕ) (accepted : Bool) (port : ℕ)
          (name type : List ℕ) (pairs : List (List ℕ × List ℕ))
          → publish_service list_size text_at label_max buffer accepted port name type pairs p
            ≡ some (q, o)
          → Step p q

    pub data Reach (p : PublisherAvahi) : PublisherAvahi → Type 0 where
      here : Reach p p
      next : {q r : PublisherAvahi} → Reach p q → Step q r → Reach p r

    handle_client_state-IsMirrored :
        (keeps : (st : MdnsState) (p : PublisherAvahi) → IsMirrored p → IsMirrored (on_state st p))
        (created : Bool) (p : PublisherAvahi)
        → IsMirrored p
        → Yields IsMirrored (handle_client_state on_state created running p)
    unfolding handle_client_state
    handle_client_state-IsMirrored keeps created p v =
        let p' : PublisherAvahi =
          on_state ready (create_group created (record p { state = ready })) in
        let w = keeps ready _ (
          create_group-IsMirrored created (record p { state = ready })
            (record { mirrored = v.mirrored; grouped = v.grouped })) in
        Yields-if _ (gives (called p' commit_group p'.services w.mirrored w.grouped)) nothing

    unequal : true ≡ false → ⊥
    unequal h = cc

    failure-IsMirrored :
        (keeps : (st : MdnsState) (p : PublisherAvahi) → IsMirrored p → IsMirrored (on_state st p))
        (created : Bool) (p : PublisherAvahi)
        → IsMirrored p
        → Yields IsMirrored (handle_client_state on_state created failure p)
    unfolding handle_client_state
    failure-IsMirrored keeps created p v = gives (
        keeps idle (record p { state = idle })
          (record { mirrored = v.mirrored; grouped = v.grouped }))

    stop-IsMirrored :
        (keeps : (st : MdnsState) (p : PublisherAvahi) → IsMirrored p → IsMirrored (on_state st p))
        (p : PublisherAvahi)
        → IsMirrored p
        → IsMirrored (stop on_state p)
    unfolding stop
    stop-IsMirrored keeps p v =
        let w = release-IsMirrored p v in
        holds-if IsMirrored p.client (on_state idle (release p)) (release p)
          (keeps idle (release p) w) w

    Step-IsMirrored :
        (keeps : (st : MdnsState) (p : PublisherAvahi) → IsMirrored p → IsMirrored (on_state st p))
        {p q : PublisherAvahi}
        → Step p q
        → IsMirrored p
        → IsMirrored q
    Step-IsMirrored keeps {p} (starts created) v = start-IsMirrored created p v
    Step-IsMirrored keeps {p} stops v = stop-IsMirrored keeps p v
    Step-IsMirrored keeps {p} groups v =
        unfold handle_group_state in
        record { mirrored = v.mirrored; grouped = λ e. absurd (unequal e) }
    Step-IsMirrored keeps {p} (runs created h) v =
        yielded (subst (Yields IsMirrored) h (handle_client_state-IsMirrored keeps created p v))
    Step-IsMirrored keeps {p} (fails created h) v =
        yielded (subst (Yields IsMirrored) h (failure-IsMirrored keeps created p v))
    Step-IsMirrored keeps {p} (publishes buffer accepted port name type pairs h) v = yielded (
        subst (Yields (λ (x : PublisherAvahi × Outcome). IsMirrored x.0)) h
          (publish_service-IsMirrored buffer accepted port name type pairs p v))

    -- Let the owner of the publisher, when it is told of a new state, keep the services that the accepted
    -- calls add up to and the recorded ones the same. Then whatever is started, stopped and published,
    -- whatever the library refuses, and also when the client reports a failure, the services that the
    -- calls have added since the group was last reset or the client freed are exactly the ones that the
    -- publisher has recorded, as long as the host does not change its name. Services that the daemon
    -- loses by itself are no part of this.
    pub Reach-IsMirrored :
        {p q : PublisherAvahi}
        → ((st : MdnsState) (p' : PublisherAvahi) → IsMirrored p' → IsMirrored (on_state st p'))
        → IsMirrored p
        → Reach p q
        → held_after [] q.calls ≡ q.services
    Reach-IsMirrored {p} {q} keeps v r = (all r).mirrored
      where
        all : {r : PublisherAvahi} → Reach p r → IsMirrored r
        all here = v
        all (next r st) = Step-IsMirrored keeps st (all r)
