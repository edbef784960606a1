-- ===== src/Commissioner/Wire.antt =====
-- commissioner.cpp: the bytes of the messages that the commissioner sends.
use mathlib.Core.List.{append_assoc, append-nil}
use commissioner.Prelude.{
  ℕ, zero, suc, ◌+◌, ◌/◌, ◌%◌, ◌^◌, ◌≤◌, ◌<◌, ◌≡◌, refl, ap, ◌∙◌, true, false, none, some, List, [],
  ◌∷◌, ◌++◌, arith, length, take, drop, length-append, length-drop, length-take, le→leb, Bool-cases,
  inl, inr, take-length-append, leb, if◌then◌else◌,
}
use commissioner.Common.Tlv.{put, put_uint16, load}
use commissioner.Common.Tlv.Layout.{Entry, encode, put-encode, put_uint8_lem, put_uint16_lem}
use commissioner.Common.Tlv.Walk.{encode_all, length_of}
use commissioner.Utils.SteeringData.{SteeringData}
use commissioner.JoinerSession.{JoinerSession, mark_kek_sent, get_kek}
use commissioner.Commissioner.{
  Commissioner, confirmable, non_confirmable, petition_path, set_path, keep_alive_path,
  relay_tx_path, network_order, host_order, host_order_int, next_token, commissioner_id, send,
  commissioner_petition, commissioner_set, commissioner_keep_alive, append_kek, send_relay_transmit,
}

abbrev pub tlv : ℕ → List ℕ → Entry
tlv type value = record { type = type; value = value }

abbrev pub bytes16 : ℕ → List ℕ
bytes16 n = (n / 256) ∷ (n % 256) ∷ []

length-encode : (type : ℕ) (value : List ℕ) → length (encode (tlv type value)) ≤ length value + 4
length-encode type value = ground (
  arith,
  length-append (0xff ∷ (length value / 256) ∷ (length value % 256) ∷ []) value,
  length-append (length value ∷ []) value,
)

get_kek-le : (s : JoinerSession) → length (get_kek s 32) ≤ 32
unfolding get_kek
get_kek-le s = omega (arith, length-take 32 s.kek)

-- One more entry behind those that are written.
pub put_next :
    (pre rest : List ℕ) (type : ℕ) (value : List ℕ)
    → length value < 2 ^ 16
    → length (encode (tlv type value)) ≤ length rest
    → put (pre ++ rest) (length pre) type value false
      ≡ some (
        (pre ++ encode (tlv type value)) ++ drop (length (encode (tlv type value))) rest,
        length (pre ++ encode (tlv type value)),
      )
put_next pre rest type value h room =
    let enc = encode (tlv type value) in
    put-encode pre rest (tlv type value) false h room
    ∙ rw (append_assoc pre enc (drop (length enc) rest), length-append pre enc)

put_next_uint16 :
    (pre rest : List ℕ) (type n : ℕ)
    → 4 ≤ length rest
    → put_uint16 (pre ++ rest) (length pre) type n
      ≡ some (
        (pre ++ encode (tlv type (bytes16 n))) ++ drop 4 rest,
        length (pre ++ encode (tlv type (bytes16 n))),
      )
put_next_uint16 pre rest type n room =
    put_uint16_lem (pre ++ rest) (length pre) type n
    ∙ put_next pre rest type (bytes16 n) (omega arith) room

put_overflow :
    (buffer : List ℕ) (type : ℕ) (value : List ℕ)
    → 4 ≤ length buffer
    → 255 ≤ length value
    → length buffer < length value + 4
    → put buffer 0 type value false ≡ none
unfolding put
put_overflow [] type value four h over = absurd (omega arith)
put_overflow (x ∷ []) type value four h over = absurd (omega arith)
put_overflow (x ∷ y ∷ []) type value four h over = absurd (omega arith)
put_overflow (x ∷ y ∷ z ∷ []) type value four h over = absurd (omega arith)
put_overflow (x ∷ y ∷ z ∷ w ∷ buffer) type value four h over = ground arith

-- What `SetPayload` takes from the buffer.
pub payload_lem :
    (bytes rest : List ℕ)
    → length bytes < 2 ^ 16
    → take (length_of (length bytes)) (bytes ++ rest) ≡ bytes
payload_lem bytes rest h =
    let e : length_of (length bytes) ≡ length bytes = omega arith in
    rw e (take-length-append bytes rest)

-- A petition is a confirmable message with the commissioner's name, its final zero included.
pub commissioner_petition_lem :
    (buffer : List ℕ) (c : Commissioner)
    → length buffer ≡ 1500
    → commissioner_petition buffer c
      ≡ some (
          send c confirmable
            (network_order (next_token c))
            petition_path
            (encode_all (tlv 10 commissioner_id ∷ [])))
unfolding commissioner_petition
commissioner_petition_lem buffer c h =
    rw (put_next [] buffer 10 commissioner_id (omega arith) (omega arith))
      (rw (payload_lem (encode (tlv 10 commissioner_id)) (drop 13 buffer) (omega arith)))

-- A keep-alive is a confirmable message with the state "accepted" and the session id, and starts
-- the timer again.
pub commissioner_keep_alive_lem :
    (buffer : List ℕ) (now : ℕ) (c : Commissioner)
    → length buffer ≡ 1500
    → let c' =
        send c confirmable
          (host_order_int (next_token c))
          keep_alive_path
          (encode_all (tlv 16 (1 ∷ []) ∷ tlv 11 (bytes16 c.session_id) ∷ [])) in
      commissioner_keep_alive buffer now c
      ≡ some (record c' { last_keep_alive = now; keep_alive_tx_count = c.keep_alive_tx_count + 1 })
unfolding commissioner_keep_alive
commissioner_keep_alive_lem buffer now c h =
    let e1 = encode (tlv 16 (1 ∷ [])) in
    let e2 = encode (tlv 11 (bytes16 c.session_id)) in
    rw (
      put_uint8_lem buffer 0 16 1,
      put_next [] buffer 16 (1 ∷ []) (omega arith) (omega arith),
      put_next_uint16 e1 (drop 3 buffer) 11 c.session_id (omega (arith, length-drop 3 buffer)),
      payload_lem (e1 ++ e2) (drop 4 (drop 3 buffer)) (omega arith),
    )

pub take_all : (xs : List ℕ) (n : ℕ) → length xs ≤ n → take n xs ≡ xs
take_all [] zero h = refl
take_all [] (suc n) h = refl
take_all (x ∷ xs) zero h = absurd (omega arith)
take_all (x ∷ xs) (suc n) h = ap (◌∷◌ x) (take_all xs n (omega arith))

-- A new set of steering data is a confirmable message with the session id and as many bytes of
-- the filter as its length says.
pub commissioner_set_lem :
    (buffer : List ℕ) (s : SteeringData) (c : Commissioner)
    → length buffer ≡ 1500
    → length s.bloom_filter ≡ 16
    → s.filter_length ≤ 16
    → commissioner_set buffer s c
      ≡ some (
          send c confirmable (network_order (next_token c)) set_path (
            encode_all
              (tlv 11 (bytes16 c.session_id) ∷ tlv 8 (take s.filter_length s.bloom_filter) ∷ [])))
unfolding commissioner_set load
commissioner_set_lem buffer s c h size fits =
    let bloom = take s.filter_length s.bloom_filter in
    let e1 = encode (tlv 11 (bytes16 c.session_id)) in
    let e2 = encode (tlv 8 bloom) in
    let len : length bloom ≤ 16 = omega (arith, length-take s.filter_length s.bloom_filter) in
    let len2 : length e2 ≤ 20 = omega (arith, length-encode 8 bloom) in
    let test : leb (0 + s.filter_length) (length s.bloom_filter) ≡ true =
      le→leb _ _ (omega arith) in
    rw (
      put_next_uint16 [] buffer 11 c.session_id (omega arith),
      test,
      put_next e1 (drop 4 buffer) 8 bloom (omega arith) (omega (arith, length-drop 4 buffer)),
      payload_lem (e1 ++ e2) (drop (length e2) (drop 4 buffer))
          (omega (arith, length-append e1 e2)),
      append-nil e2,
    )

-- The entries of a relayed packet; `kek` is empty or the one entry with the key.
abbrev pub relay_entries : Commissioner → List ℕ → List Entry → List Entry
relay_entries c buf kek =
    tlv 17 buf
    ∷ tlv 18 (bytes16 c.joiner_udp_port)
    ∷ tlv 19 c.joiner_iid
    ∷ tlv 20 (bytes16 c.joiner_router_locator)
    ∷ kek

abbrev pub kek_entries : JoinerSession → List Entry
kek_entries s = if s.need_append_kek then tlv 21 (get_kek s 32) ∷ [] else []

abbrev pub after_kek : JoinerSession → JoinerSession
after_kek s = if s.need_append_kek then mark_kek_sent s else s

kek_entries-le : (s : JoinerSession) → length (encode_all (kek_entries s)) ≤ 40
kek_entries-le s = elim (Bool-cases s.need_append_kek) [
  | inl e ↦ simp e (
      omega (
        arith,
        ap (λ (xs : List ℕ). length xs) (append-nil (encode (tlv 21 (get_kek s 32)))),
        length-encode 21 (get_kek s 32),
        get_kek-le s,
      ))
  | inr e ↦ simp e (omega arith)
]

append_kek_lem :
    (pre rest : List ℕ) (s : JoinerSession)
    → length (get_kek s 32) ≤ 32
    → 40 ≤ length rest
    → (left : List ℕ) × (append_kek (pre ++ rest) (length pre) s
        ≡ some (
          (pre ++ encode_all (kek_entries s)) ++ left,
          length (pre ++ encode_all (kek_entries s)),
          after_kek s,
        ))
unfolding append_kek
append_kek_lem pre rest s small room = elim (Bool-cases s.need_append_kek) [
  | inl e ↦ (
    drop (length (encode (tlv 21 (get_kek s 32)))) rest,
    simp (
      e,
      put_next pre rest 21 (get_kek s 32) (omega arith)
          (omega (arith, length-encode 21 (get_kek s 32))),
      append-nil (encode (tlv 21 (get_kek s 32))),
    ),
  )
  | inr e ↦ (rest, simp (e, append-nil pre))
]

-- A packet of the joiner session that fits is relayed whole, with the joiner's port, identifier
-- and router; the key goes with it exactly when a join has just been finished, and not again.
pub send_relay_transmit_lem :
    (buffer buf : List ℕ) (c : Commissioner) (s : JoinerSession)
    → length buffer ≡ 1500
    → length buf ≤ 1400
    → length c.joiner_iid ≡ 8
    → length s.kek ≡ 32
    → c.joiner_session ≡ some s
    → send_relay_transmit buffer buf c
      ≡ some (
          send
            (record c { joiner_session = some (after_kek s) })
            non_confirmable
            (host_order (next_token c))
            relay_tx_path
            (encode_all (relay_entries c buf (kek_entries s))))
unfolding send_relay_transmit
send_relay_transmit_lem buffer buf c s h hb hi hk hs =
    let e1 = encode (tlv 17 buf) in
    let e2 = encode (tlv 18 (bytes16 c.joiner_udp_port)) in
    let e3 = encode (tlv 19 c.joiner_iid) in
    let e4 = encode (tlv 20 (bytes16 c.joiner_router_locator)) in
    let r1 = drop (length e1) buffer in
    let r2 = drop 4 r1 in
    let r3 = drop (length e3) r2 in
    let r4 = drop 4 r3 in
    let n1 : length e1 ≤ 1404 = omega (arith, length-encode 17 buf) in
    let n3 : length e3 ≤ 12 = omega (arith, length-encode 19 c.joiner_iid) in
    let l1 : 96 ≤ length r1 = omega (arith, length-drop (length e1) buffer) in
    let l2 : 92 ≤ length r2 = omega (arith, length-drop 4 r1) in
    let l3 : 80 ≤ length r3 = omega (arith, length-drop (length e3) r2) in
    let l4 : 76 ≤ length r4 = omega (arith, length-drop 4 r3) in
    let whole = ((e1 ++ e2) ++ e3) ++ e4 in
    let (left, ek) = append_kek_lem whole r4 s (get_kek-le s) (omega arith) in
    let kek = encode_all (kek_entries s) in
    let all = whole ++ kek in
    let small : length all < 2 ^ 16 = omega (
      arith,
      kek_entries-le s,
      length-append whole kek,
      length-append ((e1 ++ e2) ++ e3) e4,
      length-append (e1 ++ e2) e3,
      length-append e1 e2,
    ) in
    let shape : all ≡ encode_all (relay_entries c buf (kek_entries s)) =
      append_assoc ((e1 ++ e2) ++ e3) e4 kek
      ∙ append_assoc (e1 ++ e2) e3 (e4 ++ kek)
      ∙ append_assoc e1 e2 (e3 ++ (e4 ++ kek)) in
    rw (
      put_next [] buffer 17 buf (omega arith) (omega arith),
      put_next_uint16 e1 r1 18 c.joiner_udp_port (omega arith),
      put_next (e1 ++ e2) r2 19 c.joiner_iid (omega arith) (omega arith),
      put_next_uint16 ((e1 ++ e2) ++ e3) r3 20 c.joiner_router_locator (omega arith),
      hs,
      ek,
      payload_lem all left small,
      shape,
    )

-- A packet of more than 1496 bytes does not fit the buffer behind its header: the copy runs past
-- the array, although `Process` reads packets of up to 1500 bytes.
pub send_relay_transmit_overflow :
    (buffer buf : List ℕ) (c : Commissioner)
    → length buffer ≡ 1500
    → 1496 < length buf
    → length buf ≤ 1500
    → send_relay_transmit buffer buf c ≡ none
unfolding send_relay_transmit
send_relay_transmit_overflow buffer buf c h low high =
    rw (put_overflow buffer 17 buf (omega arith) (omega arith) (omega arith))
