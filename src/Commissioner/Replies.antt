-- ===== src/Commissioner/Replies.antt =====
-- commissioner.cpp: how the answers to a petition, a set and a keep-alive are read.
use commissioner.Prelude.{
  ℕ, suc, ◌+◌, ◌*◌, ◌^◌, ◌≤◌, ◌<◌, ◌≡◌, ◌≢◌, refl, ◌∙◌, Option, none, some, List, [], ◌∷◌, ◌++◌,
  arith, length-append, ◌==◌, if◌then◌else◌, length, All, get_or,
}
use commissioner.Common.Tlv.Layout.{
  Entry, encode, get_type-encode, get_value_uint8-encode, get_value_uint16-encode,
}
use commissioner.Common.Tlv.Walk.{
  continue, Walked, finished, faulted, exhausted, over, encode_all, walk-total, walk-encode_all,
}
use commissioner.Commissioner.{
  Commissioner, state_of, reply_body, keep_alive_body, walk_payload, then_next,
  handle_commissioner_petition, handle_commissioner_set, handle_commissioner_keep_alive,
  commissioner_response_next,
}

-- An entry that the loops can read: not empty, two bytes at least for a session id, of a length
-- that the format can say.
pub record IsReply (t : Entry) : Type 0 where
  pub long : 0 < length t.value
  pub session : t.type ≡ 11 → 2 ≤ length t.value
  pub short : length t.value < 2 ^ 16
  pub bytes : All (λ b. b < 256) t.value

-- What one entry means.
abbrev pub apply_reply : Entry → Commissioner → Commissioner
apply_reply t c =
    if t.type == 16
    then record c { state = state_of (get_or t.value 0 0) }
    else if t.type == 11
    then record c { session_id = get_or t.value 0 0 * 256 + get_or t.value 1 0 }
    else c

abbrev pub apply_keep_alive : Entry → Commissioner → Commissioner
apply_keep_alive t c =
    if t.type == 16 then record c { state = state_of (get_or t.value 0 0) } else c

-- All entries of an answer, in order: a later state or session id replaces an earlier one.
abbrev pub apply_all :
    (Entry → Commissioner → Commissioner) → List Entry → Commissioner → Commissioner
apply_all f [] c = c
apply_all f (t ∷ ts) c = apply_all f ts (f t c)

over-apply_all :
    (f : Entry → Commissioner → Commissioner) (ts : List Entry) (c : Commissioner)
    → over (λ t s. continue (f t s)) ts c ≡ finished (apply_all f ts c)
over-apply_all f [] c = refl
over-apply_all f (t ∷ ts) c = over-apply_all f ts (f t c)

reply_body-read :
    (pre post : List ℕ) (type : ℕ) (value : List ℕ) (c : Commissioner)
    → IsReply (record { type = type; value = value })
    → reply_body (pre ++ (encode (record { type = type; value = value }) ++ post)) (length pre) c
      ≡ continue (apply_reply (record { type = type; value = value }) c)
unfolding reply_body
reply_body-read pre post type [] c r = absurd (omega (arith, r.long))
reply_body-read pre post type (a ∷ []) c r = ground (
  arith,
  get_type-encode pre post (record { type = type; value = a ∷ [] }),
  get_value_uint8-encode pre post type a [],
  r.session,
)
reply_body-read pre post type (a ∷ b ∷ bytes) c r = ground (
  arith,
  get_type-encode pre post (record { type = type; value = a ∷ b ∷ bytes }),
  get_value_uint8-encode pre post type a (b ∷ bytes),
  get_value_uint16-encode pre post type a b bytes r.bytes.0 r.bytes.1.0,
)

keep_alive_body-read :
    (pre post : List ℕ) (type : ℕ) (value : List ℕ) (c : Commissioner)
    → IsReply (record { type = type; value = value })
    → keep_alive_body
        (pre ++ (encode (record { type = type; value = value }) ++ post))
        (length pre)
        c
      ≡ continue (apply_keep_alive (record { type = type; value = value }) c)
unfolding keep_alive_body
keep_alive_body-read pre post type [] c r = absurd (omega (arith, r.long))
keep_alive_body-read pre post type (a ∷ bytes) c r = ground (
  arith,
  get_type-encode pre post (record { type = type; value = a ∷ bytes }),
  get_value_uint8-encode pre post type a bytes,
)

pub length-encode_all-le : (ts : List Entry) → length ts ≤ length (encode_all ts)
length-encode_all-le [] = omega arith
length-encode_all-le (t ∷ ts) =
    omega (arith, length-encode_all-le ts, length-append (encode t) (encode_all ts))

-- The walk over an answer of well-formed entries, with the fuel of the handlers.
walk-replies :
    (ts : List Entry) (c : Commissioner)
    → All IsReply ts
    → length (encode_all ts) < 2 ^ 16
    → walk_payload reply_body (encode_all ts) c ≡ finished (apply_all apply_reply ts c)
walk-replies ts c r h =
    walk-encode_all reply_body IsReply (λ t s. continue (apply_reply t s))
      (λ pre post t s ok. reply_body-read pre post t.type t.value s ok) (λ t ok. ok.short) ts
      (suc (length (encode_all ts))) c r h (omega (arith, length-encode_all-le ts))
    ∙ over-apply_all apply_reply ts c

walk-keep_alives :
    (ts : List Entry) (c : Commissioner)
    → All IsReply ts
    → length (encode_all ts) < 2 ^ 16
    → walk_payload keep_alive_body (encode_all ts) c ≡ finished (apply_all apply_keep_alive ts c)
walk-keep_alives ts c r h =
    walk-encode_all keep_alive_body IsReply (λ t s. continue (apply_keep_alive t s))
      (λ pre post t s ok. keep_alive_body-read pre post t.type t.value s ok) (λ t ok. ok.short) ts
      (suc (length (encode_all ts))) c r h (omega (arith, length-encode_all-le ts))
    ∙ over-apply_all apply_keep_alive ts c

-- What a handler does with the state that the loop has computed.
abbrev pub respond : Option Commissioner → Walked Commissioner
respond none = faulted
respond (some c) = finished c

-- The three handlers read every entry of a well-formed answer, in order, and act on the state
-- that the entries leave; a keep-alive takes no session id from them.
pub handlers_lem :
    (buffer : List ℕ) (now : ℕ) (ts : List Entry) (c : Commissioner)
    → All IsReply ts
    → length (encode_all ts) < 2 ^ 16
    → let c' = apply_all apply_reply ts c in
      let alive = record c {
        last_keep_alive = now;
        keep_alive_rx_count = c.keep_alive_rx_count + 1;
      } in
      (handle_commissioner_petition buffer now (encode_all ts) c
        ≡ respond (commissioner_response_next buffer (record c' { last_keep_alive = now })))
      × (handle_commissioner_set buffer (encode_all ts) c
          ≡ respond (commissioner_response_next buffer c'))
      × (handle_commissioner_keep_alive buffer now (encode_all ts) c
          ≡ respond (commissioner_response_next buffer (apply_all apply_keep_alive ts alive)))
unfolding handle_commissioner_petition handle_commissioner_set handle_commissioner_keep_alive
handlers_lem buffer now ts c r h = (
  rw (walk-replies ts c r h) (joined _),
  rw (walk-replies ts c r h) (joined _),
  rw (walk-keep_alives ts _ r h) (joined _),
)
  where
    joined :
        (o : Option Commissioner) → (elim o [ none ↦ faulted | some s' ↦ finished s' ]) ≡ respond o
    joined none = refl
    joined (some c) = refl

then_next-ne-exhausted :
    (w : Walked Commissioner) (f : Commissioner → Option Commissioner)
    → w ≢ exhausted
    → then_next w f ≢ exhausted
then_next-ne-exhausted faulted f h = λ e. cc
then_next-ne-exhausted exhausted f h = h
then_next-ne-exhausted (finished s) f h = go (f s)
  where
    go : (o : Option Commissioner) → (elim o [ none ↦ faulted | some s' ↦ finished s' ]) ≢ exhausted
    go none = λ e. cc
    go (some s') = λ e. cc

-- Whatever an answer holds, the loops of the three handlers come to their end or to a fault: the fuel is
-- enough.
pub handlers_end :
    (buffer : List ℕ) (now : ℕ) (payload : List ℕ) (c : Commissioner)
    → (handle_commissioner_petition buffer now payload c ≢ exhausted)
      × (handle_commissioner_set buffer payload c ≢ exhausted)
      × (handle_commissioner_keep_alive buffer now payload c ≢ exhausted)
unfolding handle_commissioner_petition handle_commissioner_set handle_commissioner_keep_alive
handlers_end buffer now payload c = (
  then_next-ne-exhausted _ _
      (walk-total reply_body (suc (length payload)) payload (length payload) 0 c (omega arith)),
  then_next-ne-exhausted _ _
      (walk-total reply_body (suc (length payload)) payload (length payload) 0 c (omega arith)),
  then_next-ne-exhausted _ _ (
      walk-total keep_alive_body (suc (length payload)) payload (length payload) 0 _ (omega arith)),
)
