-- ===== src/BorderAgent/Publishing.antt =====
-- border_agent.cpp: the states in which the publisher runs.
use commissioner.Prelude.{
  ℕ, ◌≡◌, inl, inr, ◌⊎◌, refl, ap, sym, subst, ◌∙◌, Bool, true, false, Option, none, some, List,
  arith, Bool-cases, ◌&&◌, take,
}
use commissioner.Utils.Hex.{bytes2hex}
use commissioner.BorderAgent.{
  Publisher, udp_port, MdnsState, idle, ready, BorderAgent, is_named, publish_service,
  handle_mdns_state, start_publish_service, stop_publish_service, handle_thread_change,
  set_thread_started, set_network_name, set_ext_pan_id,
}

-- What `agent/mdns.hpp` documents of `Stop`.
abbrev pub Stops : Publisher → Type 0
Stops P = (s : P.State) → P.is_started (P.stop s) ≡ false

-- A service is published by a publisher that runs, and does not start one.
abbrev pub StaysStopped : Publisher → Type 0
StaysStopped P =
    (s : P.State) (port : ℕ) (name id : List ℕ)
    → P.is_started (P.publish s port name id) ≡ true
    → P.is_started s ≡ true

module _ (P : Publisher) where
  pub data Event : Type 0 where
    thread_state : Bool → Event
    network_name ext_pan_id : List ℕ → Event
    mdns_state : MdnsState → Event

  unfoldable pub handle : Event → BorderAgent P → Option (BorderAgent P)
  handle (thread_state started) b = set_thread_started P b started
  handle (network_name name) b = set_network_name P b name
  handle (ext_pan_id id) b = set_ext_pan_id P b id
  handle (mdns_state s) b = handle_mdns_state P b s

  -- What the agent reaches from the state `b`, one event after the other; between them the publisher's
  -- library may change it, but neither starts nor stops it.
  pub data Reach (b : BorderAgent P) : BorderAgent P → Type 0 where
    start : Reach b b
    step : {c d : BorderAgent P} (e : Event) → Reach b c → handle e c ≡ some d → Reach b d
    works :
        {c : BorderAgent P} (s : P.State)
        → Reach b c
        → P.is_started s ≡ P.is_started c.publisher
        → Reach b (record c { publisher = s })

  abbrev pub IsUp : BorderAgent P → Type 0
  IsUp b = P.is_started b.publisher ≡ true → (b.thread_started ≡ true) × (is_named P b ≡ true)

  -- Whatever the state was, `HandleThreadChange` brings the publisher in line with it.
  handle_thread_change-IsUp :
      (stopped : Stops P) (b : BorderAgent P)
      → (d : BorderAgent P) × (handle_thread_change P b ≡ some d) × IsUp d
  unfolding handle_thread_change start_publish_service stop_publish_service publish_service
  handle_thread_change-IsUp stopped b = elim (Bool-cases (P.is_started b.publisher)) [
    | inl s ↦ elim (Bool-cases (b.thread_started && is_named P b)) [
      | inl up ↦ (
        record b {
          publisher = P.publish b.publisher udp_port b.network_name (bytes2hex b.ext_pan_id);
        },
        ground (arith, s, up),
        λ h. ground (arith, up),
      )
      | inr down ↦ (
        record b { publisher = P.stop b.publisher },
        ground (arith, s, down),
        λ h. ground (arith, h, stopped b.publisher),
      )
    ]
    | inr s ↦ elim (Bool-cases (b.thread_started && is_named P b)) [
      | inl up ↦ (
        record b { publisher = P.start b.publisher },
        ground (arith, s, up),
        λ h. ground (arith, up),
      )
      | inr down ↦ (b, ground (arith, s, down), λ h. ground (arith, h, s))
    ]
  ]

  -- An event is handled, or it is the report that the publisher is ready to a nameless agent.
  abbrev Fails : Event → BorderAgent P → Type 0
  Fails e b = (e ≡ mdns_state ready) × (is_named P b ≡ false)

  handle-IsUp :
      (stopped : Stops P) (stays : StaysStopped P) (e : Event) (b : BorderAgent P)
      → IsUp b
      → ((d : BorderAgent P) × (handle e b ≡ some d) × IsUp d) ⊎ ((handle e b ≡ none) × Fails e b)
  unfolding handle set_thread_started set_network_name set_ext_pan_id handle_mdns_state
      publish_service
  handle-IsUp stopped stays (thread_state started) b u =
      inl (handle_thread_change-IsUp stopped (record b { thread_started = started }))
  handle-IsUp stopped stays (network_name name) b u = inl (
      handle_thread_change-IsUp stopped
        (record b { network_name = take 16 name; publisher = P.stop b.publisher }))
  handle-IsUp stopped stays (ext_pan_id id) b u =
      inl (handle_thread_change-IsUp stopped (record b { ext_pan_id = take 8 id }))
  handle-IsUp stopped stays (mdns_state idle) b u = inl (b, refl, u)
  handle-IsUp stopped stays (mdns_state ready) b u = elim (Bool-cases (is_named P b)) [
    | inl n ↦ inl (
      record b {
        publisher = P.publish b.publisher udp_port b.network_name (bytes2hex b.ext_pan_id);
      },
      ground (arith, n),
      λ h. u (stays b.publisher udp_port b.network_name (bytes2hex b.ext_pan_id) h),
    )
    | inr n ↦ inr (ground (arith, n), (refl, n))
  ]

  nothing_some : {d : BorderAgent P} → ◌≡◌ {A = Option (BorderAgent P)} none (some d) → ⊥
  nothing_some h = cc

  reached :
      {b c : BorderAgent P} (stopped : Stops P) (stays : StaysStopped P)
      → P.is_started b.publisher ≡ false
      → Reach b c
      → IsUp c
  reached stopped stays s start = λ h. absurd (ground (arith, h, s))
  reached stopped stays s (works s' r same) = λ h. reached stopped stays s r (sym same ∙ h)
  reached {c = d} stopped stays s (step {c = c} e r h) =
      elim (handle-IsUp stopped stays e c (reached stopped stays s r)) [
        | inl (d', h', u) ↦ subst IsUp (ap (λ o. elim o [ none ↦ c | some x ↦ x ]) (sym h' ∙ h)) u
        | inr (h', f) ↦ absurd (nothing_some (sym h' ∙ h))
      ]

  -- The next event is handled, or it is a stopped publisher's report to a nameless agent that it is
  -- ready.
  pub Reach-IsUp :
      (stopped : Stops P) (stays : StaysStopped P) (b c : BorderAgent P)
      → P.is_started b.publisher ≡ false
      → Reach b c
      → IsUp c
        × ((e : Event)
            → ((d : BorderAgent P) × (handle e c ≡ some d))
              ⊎ ((e ≡ mdns_state ready)
                  × (is_named P c ≡ false)
                  × (P.is_started c.publisher ≡ false)))
  Reach-IsUp stopped stays b c s r = (
    reached stopped stays s r,
    λ e. elim (handle-IsUp stopped stays e c (reached stopped stays s r)) [
      | inl (d, h, u) ↦ inl (d, h)
      | inr (h, (same, n)) ↦ inr (
        same,
        n,
        elim (Bool-cases (P.is_started c.publisher)) [
          | inl y ↦ absurd (ground (arith, reached stopped stays s r y, n))
          | inr y ↦ y
        ],
      )
    ],
  )
