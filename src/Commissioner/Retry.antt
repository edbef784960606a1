-- ===== src/Commissioner/Retry.antt =====
-- commissioner.cpp: how often a petition is repeated, and when the commissioner gives up.
use commissioner.Prelude.{
  ℕ, ◌+◌, ◌≤◌, ◌<◌, ◌≡◌, refl, ap, ◌∙◌, length-append, false, some, List, [], ◌∷◌, arith, length,
  lt→ltb,
}
use commissioner.Commissioner.{
  Commissioner, invalid, rejected, is_valid, state_of, handle_commissioner_petition,
  commissioner_response_next, send, confirmable, petition_path, network_order, next_token,
  commissioner_id,
}
use commissioner.Common.Tlv.Walk.{encode_all, finished}
use commissioner.Commissioner.Replies.{IsReply, respond, handlers_lem}
use commissioner.Commissioner.Wire.{tlv, commissioner_petition_lem}

-- What a commissioner is after one more petition.
abbrev pub petitioned : Commissioner → Commissioner
petitioned c =
    let c' = record c { petition_retry_count = c.petition_retry_count + 1 } in
    send c' confirmable (network_order (next_token c)) petition_path
      (encode_all (tlv 10 commissioner_id ∷ []))

-- What a commissioner is when it has given up.
abbrev pub gave_up : Commissioner → Commissioner
gave_up c = record c { state = invalid; petition_retry_count = 0 }

next_again :
    (buffer : List ℕ) (c : Commissioner)
    → length buffer ≡ 1500
    → c.state ≡ rejected
    → c.petition_retry_count < 2
    → commissioner_response_next buffer c ≡ some (petitioned c)
unfolding commissioner_response_next
next_again buffer c h s r =
    simp (s, lt→ltb c.petition_retry_count 2 r)
      (commissioner_petition_lem buffer
        (record c { state = rejected; petition_retry_count = c.petition_retry_count + 1 }) h)

next_gives_up :
    (buffer : List ℕ) (c : Commissioner)
    → c.state ≡ rejected
    → 2 ≤ c.petition_retry_count
    → commissioner_response_next buffer c ≡ some (gave_up c)
unfolding commissioner_response_next
next_gives_up buffer c s r = ground (arith, s)

-- The answer of a border agent that turns a petition down.
abbrev pub refusal : List ℕ
refusal = encode_all (tlv 16 (0xff ∷ []) ∷ [])

abbrev pub turned_down : ℕ → Commissioner → Commissioner
turned_down now c = record c { state = rejected; last_keep_alive = now }

refusal-IsReply : IsReply (tlv 16 (0xff ∷ []))
refusal-IsReply = record {
  long = omega arith;
  session = λ e. absurd (omega (arith, e));
  short = omega arith;
  bytes = (omega arith, tt);
}

refused :
    (buffer : List ℕ) (now : ℕ) (c : Commissioner)
    → handle_commissioner_petition buffer now refusal c
      ≡ respond (commissioner_response_next buffer (turned_down now c))
unfolding state_of
refused buffer now c =
    (handlers_lem buffer now (tlv 16 (0xff ∷ []) ∷ []) c (refusal-IsReply, tt) (omega arith)).0

refused_again :
    (buffer : List ℕ) (now : ℕ) (c : Commissioner)
    → length buffer ≡ 1500
    → c.petition_retry_count < 2
    → handle_commissioner_petition buffer now refusal c ≡ finished (petitioned (turned_down now c))
refused_again buffer now c h r =
    refused buffer now c ∙ ap respond (next_again buffer (turned_down now c) h refl r)

refused_last :
    (buffer : List ℕ) (now : ℕ) (c : Commissioner)
    → 2 ≤ c.petition_retry_count
    → handle_commissioner_petition buffer now refusal c ≡ finished (gave_up (turned_down now c))
refused_last buffer now c r =
    refused buffer now c ∙ ap respond (next_gives_up buffer (turned_down now c) refl r)

abbrev pub after_one : ℕ → Commissioner → Commissioner
after_one now c = petitioned (turned_down now c)

petitioned_count :
    (c : Commissioner) → (petitioned c).petition_retry_count ≡ c.petition_retry_count + 1
unfolding send
petitioned_count c = refl

petitioned-sent : (c : Commissioner) → length (petitioned c).sent ≡ length c.sent + 1
unfolding send
petitioned-sent c = length-append c.sent _

-- A commissioner whose petition is turned down three times in a row repeats it after the first and
-- after the second refusal, and nothing else; with the third it gives up, with the count at 0 again.
pub refused_thrice :
    (buffer : List ℕ) (t1 t2 t3 : ℕ) (c : Commissioner)
    → length buffer ≡ 1500
    → c.petition_retry_count ≡ 0
    → let c1 = after_one t1 c in
      let c2 = after_one t2 c1 in
      let c3 = gave_up (turned_down t3 c2) in
      (handle_commissioner_petition buffer t1 refusal c ≡ finished c1)
      × (handle_commissioner_petition buffer t2 refusal c1 ≡ finished c2)
      × (handle_commissioner_petition buffer t3 refusal c2 ≡ finished c3)
      × (is_valid c3 ≡ false)
      × (length c3.sent ≡ length c.sent + 2)
unfolding is_valid
refused_thrice buffer t1 t2 t3 c h r =
    let c1 = after_one t1 c in
    let c2 = after_one t2 c1 in
    let e1 = petitioned_count (turned_down t1 c) in
    let e2 = petitioned_count (turned_down t2 c1) in
    (
      refused_again buffer t1 c h (omega (arith, r)),
      refused_again buffer t2 c1 h (omega (arith, e1, r)),
      refused_last buffer t3 c2 (omega (arith, e1, e2, r)),
      refl,
      omega (arith, petitioned-sent (turned_down t1 c), petitioned-sent (turned_down t2 c1)),
    )
