-- ===== src/Mdns/Mdnssd/Renamed.antt =====
-- mdns_mdnssd.cpp: a service that the daemon registers under another name.
use commissioner.Prelude.{
  ℕ, ◌≡◌, refl, ap, ◌∙◌, true, false, none, some, List, [], ◌∷◌, ◌++◌, ◌%◌, ◌^◌, map,
}
use commissioner.BorderAgent.{ready}
use commissioner.Mdns.Mdnssd.{
  reference, register, PublisherMdnssd, Service, add_records, is_service, new_service, find_service,
  record_service, handle_service_register_result, publish_service, stop,
}

module _ (max_name : ℕ) where
  record_service_new :
      (name type : List ℕ) (service : ℕ) (p : PublisherMdnssd)
      → find_service max_name name type p.services ≡ none
      → record_service max_name name type service p
        ≡ some (record p { services = p.services ++ new_service max_name name type service ∷ [] })
  unfolding record_service
  record_service_new name type service p h = rw (h, record_service) refl

  find_service-none :
      (name type : List ℕ) (s : Service)
      → is_service max_name name type s ≡ false
      → find_service max_name name type (s ∷ []) ≡ none
  unfolding find_service
  find_service-none name type s h = rw (h, find_service) refl

  publish_service_new :
      (p : PublisherMdnssd) (port : ℕ) (name type : List ℕ) (pairs : List (List ℕ × List ℕ))
      (txt : List ℕ) (service : ℕ)
      → find_service max_name name type p.services ≡ none
      → add_records [] pairs ≡ some txt
      → publish_service max_name port name type pairs (reference service) p
        ≡ some (
          record p {
            services = p.services ++ new_service max_name name type service ∷ [];
            requests = p.requests ++ register name type (port % 2 ^ 16) txt ∷ [];
          },
          false,
        )
  unfolding publish_service
  publish_service_new p port name type pairs txt service h e =
      let asked : PublisherMdnssd = record p {
        requests = p.requests ++ register name type (port % 2 ^ 16) txt ∷ [];
      } in
      rw (e, h, record_service_new name type service asked h, publish_service) refl

  stop-released :
      (p : PublisherMdnssd)
      → p.state ≡ ready
      → (stop p).released ≡ p.released ++ map (λ (s : Service). s.service) p.services
  unfolding stop
  stop-released p h = rw (h, stop) refl

  -- A service that is published on a publisher without services, and that the daemon then reports
  -- under a name that it has changed, is recorded twice with one reference; `Stop` releases that
  -- reference twice.
  pub renamed :
      (p : PublisherMdnssd) (port : ℕ) (name other type : List ℕ) (pairs : List (List ℕ × List ℕ))
      (txt : List ℕ) (service : ℕ)
      → p.services ≡ []
      → p.state ≡ ready
      → add_records [] pairs ≡ some txt
      → is_service max_name other type (new_service max_name name type service) ≡ false
      → (q : PublisherMdnssd) × (r : PublisherMdnssd) × (publish_service max_name port name type
            pairs
            (reference service)
            p
          ≡ some (q, false))
        × (handle_service_register_result max_name false true other type service q ≡ some r)
        × ((stop r).released ≡ p.released ++ service ∷ service ∷ [])
  unfolding handle_service_register_result new_service find_service
  renamed p port name other type pairs txt service empty started e differs =
      let one = new_service max_name name type service in
      let two = new_service max_name other type service in
      let q : PublisherMdnssd = record p {
        services = one ∷ [];
        requests = p.requests ++ register name type (port % 2 ^ 16) txt ∷ [];
      } in
      let r : PublisherMdnssd = record q { services = one ∷ two ∷ [] } in
      (
        q,
        r,
        publish_service_new p port name type pairs txt service
              (ap (find_service max_name name type) empty ∙ nowhere) e
            ∙ rw empty refl,
        record_service_new other type service q (find_service-none other type one differs),
        stop-released r started,
      )
    where
      nowhere : find_service max_name name type [] ≡ none
      nowhere = refl
