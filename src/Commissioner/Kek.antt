-- ===== src/Commissioner/Kek.antt =====
-- commissioner.cpp and joiner_session.cpp: from a joiner's finalize request to the key that its router
-- gets.
use commissioner.Prelude.{
  ℕ, ◌≤◌, ◌≡◌, refl, ap, ◌∙◌, true, some, List, [], ◌∷◌, ◌++◌, arith, length, take, drop,
  length-drop,
}
use commissioner.Common.Tlv.Layout.{encode, put_uint8_lem}
use commissioner.Common.Tlv.Walk.{encode_all}
use commissioner.JoinerSession.{
  JoinerSession, ready, handle_session_change, handle_joiner_finalize, finalize_payload, test_text,
  mark_kek_sent, get_kek,
}
use commissioner.Commissioner.{
  Commissioner, Message, non_confirmable, relay_tx_path, host_order, next_token, send,
  send_relay_transmit,
}
use commissioner.Commissioner.Wire.{
  tlv, relay_entries, kek_entries, after_kek, put_next, payload_lem, take_all,
  send_relay_transmit_lem,
}

-- The answer to the joiner: accepted, and a text.
abbrev pub finalize_answer : List ℕ
finalize_answer = encode_all (tlv 16 (1 ∷ []) ∷ tlv 48 test_text ∷ [])

finalize_lem :
    (payload : List ℕ) → length payload ≡ 50 → finalize_payload payload ≡ some finalize_answer
unfolding finalize_payload
finalize_lem payload h =
    let e1 = encode (tlv 16 (1 ∷ [])) in
    let e2 = encode (tlv 48 test_text) in
    rw (
      put_uint8_lem payload 0 16 1,
      put_next [] payload 16 (1 ∷ []) (omega arith) (omega arith),
      put_next e1 (drop 3 payload) 48 test_text (omega arith)
          (omega (arith, length-drop 3 payload)),
      payload_lem (e1 ++ e2) (drop 8 (drop 3 payload)) (omega arith),
    )

-- The relay message to the joiner's router.
abbrev pub relayed_message : Commissioner → List ℕ → List ℕ → Message
relayed_message c packet kek = record {
  kind = non_confirmable;
  token = host_order (next_token c);
  path = relay_tx_path;
  payload = encode_all (relay_entries c packet (tlv 21 kek ∷ []));
}

-- The same without a key.
abbrev pub plain_message : Commissioner → List ℕ → Message
plain_message c packet = record {
  kind = non_confirmable;
  token = host_order (next_token c);
  path = relay_tx_path;
  payload = encode_all (relay_entries c packet []);
}

-- The joiner session after a handshake that agreed on `kek`, and a finalize request.
abbrev pub joined : JoinerSession → ℕ → List ℕ → JoinerSession
joined s session kek = record (handle_session_change s session kek ready) { need_append_kek = true }

-- After a handshake that agreed on a key of 32 bytes, a finalize request is answered; then the first
-- packet that is relayed carries that key, and the second packet carries none.
pub kek_once :
    (buffer payload p1 p2 kek : List ℕ) (session : ℕ) (c : Commissioner) (s : JoinerSession)
    → length buffer ≡ 1500
    → length payload ≡ 50
    → length p1 ≤ 1400
    → length p2 ≤ 1400
    → length kek ≡ 32
    → length c.joiner_iid ≡ 8
    → let c0 = record c { joiner_session = some (joined s session kek) } in
      (handle_joiner_finalize (handle_session_change s session kek ready) payload
        ≡ some (joined s session kek, finalize_answer))
      × (c1 : Commissioner) × (c2 : Commissioner) × (send_relay_transmit buffer p1 c0 ≡ some c1)
      × (send_relay_transmit buffer p2 c1 ≡ some c2)
      × (c2.sent ≡ (c.sent ++ relayed_message c p1 kek ∷ []) ++ plain_message c1 p2 ∷ [])
unfolding handle_session_change handle_joiner_finalize send get_kek mark_kek_sent
kek_once buffer payload p1 p2 kek session c s hb hp h1 h2 hk hi =
    let s0 = joined s session kek in
    let c0 = record c { joiner_session = some s0 } in
    let k32 : take 32 kek ≡ kek = take_all kek 32 (omega (arith, hk)) in
    let k : take 32 (take 32 kek) ≡ kek = ap (take 32) k32 ∙ k32 in
    let c1 : Commissioner =
      send (record c0 { joiner_session = some (after_kek s0) }) non_confirmable
        (host_order (next_token c)) relay_tx_path
        (encode_all (relay_entries c p1 (kek_entries s0))) in
    (
      rw (finalize_lem payload hp) refl,
      c1,
      _,
      send_relay_transmit_lem buffer p1 c0 s0 hb h1 hi (ap length k32 ∙ hk) refl,
      send_relay_transmit_lem buffer p2 c1 (after_kek s0) hb h2 hi (ap length k32 ∙ hk) refl,
      ap (λ x. (c.sent ++ relayed_message c p1 x ∷ []) ++ plain_message c1 p2 ∷ []) k,
    )
