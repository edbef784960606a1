-- ===== src/Examples/Messages.antt =====
-- The theorems on TLVs and on the commissioner's messages.
use commissioner.Prelude.{
  ℕ, ◌+◌, ◌≡◌, ◌≤◌, ◌⊎◌, Bool, refl, true, false, none, some, List, [], ◌∷◌, ◌++◌, arith, length,
  take, replicate, length-replicate,
}
use commissioner.Utils.SteeringData.{SteeringData}
use commissioner.JoinerSession.{JoinerSession, ready, handle_session_change, handle_joiner_finalize}
use commissioner.Common.Tlv.{put}
use commissioner.Common.Tlv.Layout.{Entry, encode_with, Placed, put-encode}
use commissioner.Common.Tlv.Walk.{finished, encode_all}
use commissioner.Commissioner.{
  is_valid, process_timer, Commissioner, connected, non_confirmable, relay_tx_path, send,
  next_token, host_order, commissioner_response_next, handle_commissioner_petition,
  handle_commissioner_set, handle_commissioner_keep_alive, send_relay_transmit,
}
use commissioner.Commissioner.Replies.{
  IsReply, apply_reply, apply_keep_alive, apply_all, respond, handlers_lem,
}
use commissioner.Commissioner.Timer.{IsDue, kept_alive, process_timer_lem}
use commissioner.Commissioner.Retry.{refusal, turned_down, after_one, gave_up, refused_thrice}
use commissioner.JoinerList.{JoinerInstance}
use commissioner.JoinerList.Operations.{entry}
use commissioner.Commissioner.Kek.{
  joined, finalize_answer, relayed_message, plain_message, kek_once,
}
use commissioner.Commissioner.Wire.{
  tlv, relay_entries, kek_entries, after_kek, send_relay_transmit_lem, send_relay_transmit_overflow,
}

abbrev session : JoinerSession
session = record { kek = replicate 32 5; psk = []; dtls_session = none; need_append_kek = true }

abbrev pub c0 : Commissioner
c0 = record {
  state = connected;
  coap_token = 9;
  petition_retry_count = 0;
  session_id = 0;
  joiner_session = some session;
  joiner_udp_port = 1000;
  joiner_iid = replicate 8 1;
  joiner_router_locator = 2;
  keep_alive_rate = 15;
  last_keep_alive = 0;
  keep_alive_tx_count = 0;
  keep_alive_rx_count = 0;
  sent = [];
  relayed = [];
}

abbrev pub buffer : List ℕ
buffer = replicate 1500 0

pub buffer-length : length buffer ≡ 1500
buffer-length = length-replicate {A = ℕ} 1500 0

abbrev answer : List Entry
answer = tlv 16 (1 ∷ []) ∷ tlv 11 (0 ∷ 7 ∷ []) ∷ []

state_tlv-IsReply : IsReply (tlv 16 (1 ∷ []))
state_tlv-IsReply = record {
  long = omega arith;
  session = λ e. absurd (omega (arith, e));
  short = omega arith;
  bytes = (omega arith, tt);
}

session_tlv-IsReply : IsReply (tlv 11 (0 ∷ 7 ∷ []))
session_tlv-IsReply = record {
  long = omega arith;
  session = λ e. omega arith;
  short = omega arith;
  bytes = (omega arith, (omega arith, tt));
}

put-encode_example :
    Placed
      (1 ∷ [])
      (0 ∷ 0 ∷ 0 ∷ 0 ∷ [])
      (encode_with false (tlv 16 (1 ∷ [])))
      (put ((1 ∷ []) ++ 0 ∷ 0 ∷ 0 ∷ 0 ∷ []) 1 16 (1 ∷ []) false)
put-encode_example =
    put-encode (1 ∷ []) (0 ∷ 0 ∷ 0 ∷ 0 ∷ []) (tlv 16 (1 ∷ [])) false (omega arith) (omega arith)

handlers_lem_example :
    let c' = apply_all apply_reply answer c0 in
    let alive = record c0 {
      last_keep_alive = 3;
      keep_alive_rx_count = c0.keep_alive_rx_count + 1;
    } in
    (handle_commissioner_petition buffer 3 (encode_all answer) c0
      ≡ respond (commissioner_response_next buffer (record c' { last_keep_alive = 3 })))
    × (handle_commissioner_set buffer (encode_all answer) c0
        ≡ respond (commissioner_response_next buffer c'))
    × (handle_commissioner_keep_alive buffer 3 (encode_all answer) c0
        ≡ respond (commissioner_response_next buffer (apply_all apply_keep_alive answer alive)))
handlers_lem_example =
    handlers_lem buffer 3 answer c0 (state_tlv-IsReply, (session_tlv-IsReply, tt)) (omega arith)

abbrev steering : SteeringData
steering = record { bloom_filter = replicate 16 255; filter_length = 15 }

send_relay_transmit_lem_example :
    send_relay_transmit buffer (22 ∷ 23 ∷ []) c0
    ≡ some (
        send
          (record c0 { joiner_session = some (after_kek session) })
          non_confirmable
          (host_order (next_token c0))
          relay_tx_path
          (encode_all (relay_entries c0 (22 ∷ 23 ∷ []) (kek_entries session))))
send_relay_transmit_lem_example =
    send_relay_transmit_lem buffer (22 ∷ 23 ∷ []) c0 session buffer-length (omega arith) refl refl
      refl

send_relay_transmit_overflow_example : send_relay_transmit buffer (replicate 1497 1) c0 ≡ none
send_relay_transmit_overflow_example =
    send_relay_transmit_overflow buffer (replicate 1497 1) c0 buffer-length
      (omega (arith, length-replicate {A = ℕ} 1497 1))
      (omega (arith, length-replicate {A = ℕ} 1497 1))

process_timer_lem_example :
    (IsDue 3 c0
      × (process_timer buffer 3 c0 ≡ some (kept_alive 3 c0))
      × (5 ≤ 3 + 15 → process_timer buffer 5 (kept_alive 3 c0) ≡ some (kept_alive 3 c0)))
    ⊎ ((¬ IsDue 3 c0) × (process_timer buffer 3 c0 ≡ some c0))
process_timer_lem_example = process_timer_lem buffer 3 5 c0 buffer-length

refused_thrice_example :
    let c1 = after_one 3 c0 in
    let c2 = after_one 4 c1 in
    let c3 = gave_up (turned_down 5 c2) in
    (handle_commissioner_petition buffer 3 refusal c0 ≡ finished c1)
    × (handle_commissioner_petition buffer 4 refusal c1 ≡ finished c2)
    × (handle_commissioner_petition buffer 5 refusal c2 ≡ finished c3)
    × (is_valid c3 ≡ false)
    × (length c3.sent ≡ length c0.sent + 2)
refused_thrice_example = refused_thrice buffer 3 4 5 c0 buffer-length refl

abbrev hash : List ℕ → List ℕ
hash m = take 32 (m ++ replicate 32 0)

abbrev joiners : List JoinerInstance
joiners = entry (b'K' ∷ []) (b'0' ∷ b'1' ∷ []) ∷ entry (b'L' ∷ []) (b'0' ∷ b'4' ∷ []) ∷ []

abbrev iid : List ℕ
iid = 4 ∷ 0 ∷ 0 ∷ 0 ∷ 0 ∷ 0 ∷ 0 ∷ 0 ∷ []

abbrev new_kek : List ℕ
new_kek = replicate 32 6

abbrev c0_joined : Commissioner
c0_joined = record c0 { joiner_session = some (joined session 4 new_kek) }

kek_once_example :
    (handle_joiner_finalize (handle_session_change session 4 new_kek ready) (replicate 50 0)
      ≡ some (joined session 4 new_kek, finalize_answer))
    × (c1 : Commissioner) × (c2 : Commissioner) × (send_relay_transmit buffer (22 ∷ []) c0_joined
        ≡ some c1)
    × (send_relay_transmit buffer (23 ∷ []) c1 ≡ some c2)
    × (c2.sent
        ≡ (c0.sent ++ relayed_message c0 (22 ∷ []) new_kek ∷ []) ++ plain_message c1 (23 ∷ []) ∷ [])
kek_once_example =
    kek_once buffer (replicate 50 0) (22 ∷ []) (23 ∷ []) new_kek 4 c0 session buffer-length refl
      (omega arith) (omega arith) refl refl

abbrev takes_all : List ℕ → Bool
takes_all bytes = true

abbrev relay : List Entry
relay = tlv 17 (22 ∷ []) ∷ tlv 19 iid ∷ tlv 20 (0 ∷ 7 ∷ []) ∷ []
