-- ===== src/Plugin/Announce/Announced.antt =====
-- comm.cpp: the steering data that the border agent was told.
use commissioner.Prelude.{
  ℕ, ◌≡◌, ◌≢◌, ◌⊎◌, inl, inr, refl, ap, sym, ◌∙◌, subst, true, false, Option, none, some, List, [],
  ◌∷◌, ◌++◌, arith, length, take, All, Bool-cases, Option-cases,
}
use commissioner.Common.Tlv.Walk.{encode_all}
use commissioner.Utils.SteeringData.{SteeringData}
use commissioner.Utils.SteeringData.Filter.{IsFilter}
use commissioner.Commissioner.{
  Commissioner, Message, UriPath, confirmable, network_order, next_token, send, petition_path,
  set_path, keep_alive_path, relay_tx_path, set_joiner,
}
use commissioner.Commissioner.Wire.{tlv, bytes16, commissioner_set_lem}
use commissioner.JoinerList.{JoinerList, success_ok, list_update_finished}
use commissioner.JoinerList.Json.{Jansson}
use commissioner.Pskc.{Pskc}
use commissioner.Plugin.Rest.{
  Request, Response, Route, post_network, get_network, delete_network, post_joiners, put_joiner,
  delete_joiners, delete_joiner, get_joiners, respond,
}
use commissioner.Prelude.Yields.{Yields, yielded}
use commissioner.Plugin.Rest.Mark.{Host, KeepsMark, respond-KeepsMark}
use commissioner.Plugin.Announce.{default_pskd, announce_steering, announce}

-- The requests after which the manager keeps the commissioner: all but those that give it new
-- parameters and that reset it.
abbrev pub KeepsCommissioner : Route → Type 0
KeepsCommissioner post_network = ⊥
KeepsCommissioner delete_network = ⊥
KeepsCommissioner get_network = Unit
KeepsCommissioner post_joiners = Unit
KeepsCommissioner put_joiner = Unit
KeepsCommissioner delete_joiners = Unit
KeepsCommissioner delete_joiner = Unit
KeepsCommissioner get_joiners = Unit

-- The payload of the newest message with steering data.
abbrev pub last_of : Option (List ℕ) → Message → Option (List ℕ)
last_of old m = elim m.path [
  | set_path ↦ some m.payload
  | petition_path ↦ old
  | keep_alive_path ↦ old
  | relay_tx_path ↦ old
]

abbrev pub last_set : Option (List ℕ) → List Message → Option (List ℕ)
last_set old [] = old
last_set old (m ∷ ms) = last_set (last_of old m) ms

pub last_set-append :
    (old : Option (List ℕ)) (ms ns : List Message)
    → last_set old (ms ++ ns) ≡ last_set (last_set old ms) ns
last_set-append old [] ns = refl
last_set-append old (m ∷ ms) ns = last_set-append (last_of old m) ms ns

pub last_set-skip :
    (old : Option (List ℕ)) (ms : List Message)
    → All (λ m. m.path ≢ set_path) ms
    → last_set old ms ≡ old
last_set-skip old [] h = refl
last_set-skip old (m ∷ ms) (p, h) = last_set-skip (last_of old m) ms h ∙ unset m.path refl
  where
    unset : (q : UriPath) → m.path ≡ q → last_of old m ≡ old
    unset set_path e = absurd (p e)
    unset petition_path e = rw e refl
    unset keep_alive_path e = rw e refl
    unset relay_tx_path e = rw e refl

abbrev pub steering_payload : ℕ → SteeringData → List ℕ
steering_payload id s =
    encode_all (tlv 11 (bytes16 id) ∷ tlv 8 (take s.filter_length s.bloom_filter) ∷ [])

-- The newest steering data of a commissioner's messages are these.
abbrev pub Told : List Message → SteeringData → Type 0
Told sent s = (id : ℕ) × (last_set none sent ≡ some (steering_payload id s))

set_joiner-sent : (c : Commissioner) (kek text : List ℕ) → (set_joiner c kek text).sent ≡ c.sent
unfolding set_joiner
set_joiner-sent c kek text = elim (Option-cases c.joiner_session) [
  | inl e ↦ rw (e, set_joiner) refl
  | inr (s, e) ↦ rw (e, set_joiner) refl
]

module _ (sha256 : List ℕ → List ℕ) (J : Jansson) where
  -- What a round sends is the list's steering data.
  pub announce_steering-Told :
      (buffer kek : List ℕ) (l : JoinerList sha256 J) (c : Commissioner)
      → length buffer ≡ 1500
      → IsFilter l.steering
      → (c' : Commissioner) × (announce_steering sha256 J buffer kek l c ≡ some c')
        × Told c'.sent l.steering
  unfolding announce_steering send
  announce_steering-Told buffer kek l c size f =
      let payload = steering_payload c.session_id l.steering in
      let c1 = send c confirmable (network_order (next_token c)) set_path payload in
      (
        set_joiner c1 kek default_pskd,
        rw (commissioner_set_lem buffer l.steering c size f.size f.fits) refl,
        (
          c.session_id,
          ap (last_set none) (set_joiner-sent c1 kek default_pskd) ∙ last_set-append none c.sent _,
        ),
      )

  pub announce_lem :
      (buffer kek : List ℕ) (l : JoinerList sha256 J) (c d : Commissioner)
      → l.updated ≡ true
      → announce_steering sha256 J buffer kek l c ≡ some d
      → announce sha256 J buffer kek l c ≡ some (list_update_finished sha256 J l, d)
  unfolding announce
  announce_lem buffer kek l c d u e = ground (arith, u, e)

  pub announce-unmarked :
      (buffer kek : List ℕ) (l : JoinerList sha256 J) (c : Commissioner)
      → l.updated ≡ false
      → announce sha256 J buffer kek l c ≡ some (l, c)
  unfolding announce
  announce-unmarked buffer kek l c u = ground (arith, u)

  module _ (integer_value : J.Json → Option ℕ) (object_update : J.Json → J.Json → J.Json)
      (object_dumps : J.Json → List ℕ) (prf : List ℕ → List ℕ → List ℕ) (iterations : ℕ) where
    abbrev Server : Type 0
    Server = Host sha256 J integer_value object_update object_dumps prf iterations

    -- What happens beside one another while the commissioner stays the same, in any order: a request
    -- on the joiners or to read the parameters that is answered with success, a round that announces
    -- the list, and whatever else the commissioner sends.
    pub data Step : Server → Commissioner → Server → Commissioner → Type 0 where
      answers :
          {s s' : Server} {c : Commissioner} {r : Response} (pskc : Pskc) (route : Route)
          (req : Request)
          → respond sha256 J integer_value object_update object_dumps prf iterations pskc s route
              req
            ≡ some (s', r)
          → r.code ≡ success_ok
          → KeepsCommissioner route
          → Step s c s' c
      announces :
          {s : Server} {c c' : Commissioner} {l : JoinerList sha256 J} (buffer kek : List ℕ)
          → length buffer ≡ 1500
          → IsFilter s.joiner_list.steering
          → announce sha256 J buffer kek s.joiner_list c ≡ some (l, c')
          → Step s c (record s { joiner_list = l }) c'
      works :
          {s : Server} {c c' : Commissioner} (ms : List Message)
          → c'.sent ≡ c.sent ++ ms
          → All (λ m. m.path ≢ set_path) ms
          → Step s c s c'

    pub data Reach (s : Server) (c : Commissioner) : Server → Commissioner → Type 0 where
      here : Reach s c s c
      next :
          {s' s'' : Server} {c' c'' : Commissioner}
          → Reach s c s' c'
          → Step s' c' s'' c''
          → Reach s c s'' c''

    -- The list waits for a round, or its steering data are the newest that were sent.
    abbrev pub IsAnnounced : Server → Commissioner → Type 0
    IsAnnounced s c = (s.joiner_list.updated ≡ true) ⊎ Told c.sent s.joiner_list.steering

    announce-IsAnnounced :
        (s : Server) (c c' : Commissioner) (l : JoinerList sha256 J) (buffer kek : List ℕ)
        → length buffer ≡ 1500
        → IsFilter s.joiner_list.steering
        → announce sha256 J buffer kek s.joiner_list c ≡ some (l, c')
        → IsAnnounced s c
        → IsAnnounced (record s { joiner_list = l }) c'
    unfolding list_update_finished
    announce-IsAnnounced s c c' l buffer kek size f h a = elim (Bool-cases s.joiner_list.updated) [
      | inl u ↦
          let (d, e, t) = announce_steering-Told buffer kek s.joiner_list c size f in
          moved (list_update_finished sha256 J s.joiner_list) d
            (sym (announce_lem buffer kek s.joiner_list c d u e) ∙ h) (inr t)
      | inr u ↦ moved s.joiner_list c (sym (announce-unmarked buffer kek s.joiner_list c u) ∙ h) a
    ]
      where
        pair : {x y : JoinerList sha256 J × Commissioner} → some x ≡ some y → x ≡ y
        pair h = cc

        moved :
            (m : JoinerList sha256 J) (d : Commissioner)
            → ◌≡◌ {A = Option (JoinerList sha256 J × Commissioner)} (some (m, d)) (some (l, c'))
            → IsAnnounced (record s { joiner_list = m }) d
            → IsAnnounced (record s { joiner_list = l }) c'
        moved m d e x =
            subst
              (λ (t : JoinerList sha256 J × Commissioner).
                IsAnnounced (record s { joiner_list = t.0 }) t.1)
              (pair e) x

    Step-IsAnnounced :
        {s s' : Server} {c c' : Commissioner} → Step s c s' c' → IsAnnounced s c → IsAnnounced s' c'
    Step-IsAnnounced {s} {s'} {c} (answers {r = r} pskc route req h ok kept) a =
        let y =
          subst
            (Yields (KeepsMark sha256 J integer_value object_update object_dumps prf iterations s))
            h
            (respond-KeepsMark sha256 J integer_value object_update object_dumps prf iterations pskc
              s route req) in
        elim (yielded y ok) [
          | inl u ↦ inl u
          | inr e ↦
              subst (λ (l : JoinerList sha256 J). (l.updated ≡ true) ⊎ Told c.sent l.steering)
                (sym e) a
        ]
    Step-IsAnnounced {s = s} {c = c} (announces buffer kek size f h) a =
        announce-IsAnnounced s c _ _ buffer kek size f h a
    Step-IsAnnounced (works ms e n) (inl u) = inl u
    Step-IsAnnounced {c = c} (works ms e n) (inr (id, t)) = inr (
      id,
      ap (last_set none) e
          ∙ last_set-append none c.sent ms
          ∙ last_set-skip (last_set none c.sent) ms n
          ∙ t,
    )

    -- Let the list be marked as updated at first, or its steering data be the newest that were sent.
    -- After any sequence of successful requests on the joiners or to read the parameters, of rounds that
    -- announce the list and of other messages, while the commissioner stays the same, the list is marked, or the newest steering data that the border agent was
    -- sent are those of the list.
    pub Reach-IsAnnounced :
        {s : Server} {c : Commissioner} {s' : Server} {c' : Commissioner}
        → IsAnnounced s c
        → Reach s c s' c'
        → IsAnnounced s' c'
    Reach-IsAnnounced a here = a
    Reach-IsAnnounced a (next r st) = Step-IsAnnounced st (Reach-IsAnnounced a r)
