-- ===== src/Commissioner.antt =====
-- lib/borderrouter/src/commissioner/commissioner.cpp. The CoAP agent is a list of the messages that
-- it was given; the DTLS connection, the sockets and the clock enter as arguments. A local packet
-- buffer is an argument too, with any contents. `none` and `faulted` are undefined behaviour or a
-- failed assertion.
pub mod Wire
pub mod Replies
pub mod Timer
pub mod Relay
pub mod Kek
pub mod Search
pub mod Retry
use commissioner.Prelude.{
  ℕ, zero, suc, ◌+◌, ◌*◌, ◌/◌, ◌%◌, ◌^◌, Bool, true, false, ◌&&◌, ◌||◌, Option, none, some, List,
  [], ◌∷◌, ◌++◌, ltb, leb, ◌==◌, if◌then◌else◌, length, take, bit_and, not,
}
use commissioner.Prelude.Chain.{◌>>=◌}
use commissioner.Common.Tlv.{
  get_type, get_length, get_value, get_value_uint8, get_value_uint16, load, put, put_uint8,
  put_uint16,
}
use commissioner.Common.Tlv.Walk.{
  Control, continue, leave, fault, Walked, finished, faulted, exhausted, walk, length_of,
}
use commissioner.Utils.SteeringData.{SteeringData}
use commissioner.JoinerList.{JoinerInstance, instance_at}
use commissioner.JoinerList.Json.{same_text}
use commissioner.JoinerSession.{
  JoinerSession, make as make_joiner_session, set_psk, mark_kek_sent, get_kek,
}

pub data CommissionState : Type 0 where
  invalid connected accepted rejected : CommissionState

pub data MessageType : Type 0 where
  confirmable non_confirmable : MessageType

pub data UriPath : Type 0 where
  petition_path set_path keep_alive_path relay_tx_path : UriPath

pub record Message : Type 0 where
  pub kind : MessageType
  pub token : List ℕ
  pub path : UriPath
  pub payload : List ℕ

-- `sent` and `relayed` are what the CoAP agent and the socket to the joiner session were given.
pub record Commissioner : Type 0 where
  pub state : CommissionState
  pub coap_token : ℕ
  pub petition_retry_count : ℕ
  pub session_id : ℕ
  pub joiner_session : Option JoinerSession
  pub joiner_udp_port : ℕ
  pub joiner_iid : List ℕ
  pub joiner_router_locator : ℕ
  pub keep_alive_rate : ℕ
  pub last_keep_alive : ℕ
  pub keep_alive_tx_count : ℕ
  pub keep_alive_rx_count : ℕ
  pub sent : List Message
  pub relayed : List (List ℕ)

abbrev pub is_state : CommissionState → CommissionState → Bool
is_state invalid invalid = true
is_state connected connected = true
is_state accepted accepted = true
is_state rejected rejected = true
is_state _ _ = false

unfoldable pub is_valid : Commissioner → Bool
is_valid c = not (is_state c.state invalid)

unfoldable pub is_commissioner_accepted : Commissioner → Bool
is_commissioner_accepted c = is_state c.state accepted

-- `SetJoiner`; the memory of the new session's key is an argument.
unfoldable pub set_joiner : Commissioner → List ℕ → List ℕ → Commissioner
set_joiner c kek pskd_ascii = elim c.joiner_session [
  | some s ↦ c
  | none ↦ record c { joiner_session = some (make_joiner_session kek pskd_ascii) }
]

-- What `mbedtls_ssl_handshake` returns.
pub data Handshake : Type 0 where
  done want_read want_write failed : Handshake

unfoldable pub try_dtls_handshake : Commissioner → Handshake → Commissioner
try_dtls_handshake c done = record c { state = connected }
try_dtls_handshake c failed = record c { state = invalid }
try_dtls_handshake c want_read = c
try_dtls_handshake c want_write = c

-- The bytes of a 16-bit number after `htons`, and of numbers in the host's order, lowest first.
abbrev pub network_order : ℕ → List ℕ
network_order n = (n / 256 % 256) ∷ (n % 256) ∷ []

abbrev pub host_order : ℕ → List ℕ
host_order n = (n % 256) ∷ (n / 256 % 256) ∷ []

abbrev pub host_order_int : ℕ → List ℕ
host_order_int n = (n % 256) ∷ (n / 256 % 256) ∷ (n / 2 ^ 16 % 256) ∷ (n / 2 ^ 24 % 256) ∷ []

-- `++mCoapToken`.
abbrev pub next_token : Commissioner → ℕ
next_token c = (c.coap_token + 1) % 2 ^ 32

-- `kCommissionerId`, whose size counts the final zero.
abbrev pub commissioner_id : List ℕ
commissioner_id = b'O' ∷ b'p' ∷ b'e' ∷ b'n' ∷ b'T' ∷ b'h' ∷ b'r' ∷ b'e' ∷ b'a' ∷ b'd' ∷ 0 ∷ []

unfoldable pub send : Commissioner → MessageType → List ℕ → UriPath → List ℕ → Commissioner
send c kind token path payload = record c {
  coap_token = next_token c;
  sent = c.sent ++ record { kind = kind; token = token; path = path; payload = payload } ∷ [];
}

unfoldable pub commissioner_petition : List ℕ → Commissioner → Option Commissioner
commissioner_petition buffer c = put buffer 0 10 commissioner_id false >>= λ (mem, p).
    some (send c confirmable (network_order (next_token c)) petition_path (take (length_of p) mem))

abbrev pub petition_max_retry : ℕ
petition_max_retry = 2

unfoldable pub commissioner_response_next : List ℕ → Commissioner → Option Commissioner
commissioner_response_next buffer c =
    if is_state c.state connected || is_state c.state rejected
    then if not (is_state c.state invalid) && ltb c.petition_retry_count petition_max_retry
      then commissioner_petition buffer
          (record c { petition_retry_count = c.petition_retry_count + 1 })
      else some (record c { state = invalid; petition_retry_count = 0 })
    else some c

-- The state of a State TLV, whose byte is read as an `int8_t`.
unfoldable pub state_of : ℕ → CommissionState
state_of byte = if byte == 1 then accepted else if byte == 0xff then rejected else invalid

abbrev pub control {ℓ} : {S : Type ℓ} → Option S → Control S
control none = fault
control (some s) = continue s

-- One round of the loops of `HandleCommissionerPetition` and `HandleCommissionerSet`.
unfoldable pub reply_body : List ℕ → ℕ → Commissioner → Control Commissioner
reply_body payload p c = control (
    get_value_uint8 payload p >>= λ state. get_type payload p >>= λ type.
    if type == 16
    then some (record c { state = state_of state })
    else if type == 11
    then (get_value_uint16 payload p >>= λ id. some (record c { session_id = id }))
    else some c)

-- One round of the loop of `HandleCommissionerKeepAlive`.
unfoldable pub keep_alive_body : List ℕ → ℕ → Commissioner → Control Commissioner
keep_alive_body payload p c = control (
    get_value_uint8 payload p >>= λ state. get_type payload p >>= λ type.
    if type == 16 then some (record c { state = state_of state }) else some c)

-- The loop over a payload; the fuel is one round for each byte and one for the last test.
abbrev pub walk_payload {ℓ} : {S : Type ℓ} → (List ℕ → ℕ → S → Control S) → List ℕ → S → Walked S
walk_payload body payload s = walk body (suc (length payload)) payload (length payload) 0 s

abbrev pub then_next {ℓ} : {S : Type ℓ} → Walked S → (S → Option S) → Walked S
then_next faulted f = faulted
then_next exhausted f = exhausted
then_next (finished s) f = elim (f s) [ none ↦ faulted | some s' ↦ finished s' ]

unfoldable pub handle_commissioner_petition :
    List ℕ → ℕ → List ℕ → Commissioner → Walked Commissioner
handle_commissioner_petition buffer now payload c =
    then_next (walk_payload reply_body payload c)
      λ c'. commissioner_response_next buffer (record c' { last_keep_alive = now })

unfoldable pub handle_commissioner_set : List ℕ → List ℕ → Commissioner → Walked Commissioner
handle_commissioner_set buffer payload c =
    then_next (walk_payload reply_body payload c) (commissioner_response_next buffer)

unfoldable pub handle_commissioner_keep_alive :
    List ℕ → ℕ → List ℕ → Commissioner → Walked Commissioner
handle_commissioner_keep_alive buffer now payload c =
    then_next
      (walk_payload keep_alive_body payload
        (record c { last_keep_alive = now; keep_alive_rx_count = c.keep_alive_rx_count + 1 }))
      (commissioner_response_next buffer)

unfoldable pub commissioner_set : List ℕ → SteeringData → Commissioner → Option Commissioner
commissioner_set buffer steering c = put_uint16 buffer 0 11 c.session_id >>= λ (mem, p).
    load steering.bloom_filter 0 steering.filter_length >>= λ bloom.
    put mem p 8 bloom false >>= λ (mem', p').
    some (send c confirmable (network_order (next_token c)) set_path (take (length_of p') mem'))

unfoldable pub commissioner_keep_alive : List ℕ → ℕ → Commissioner → Option Commissioner
commissioner_keep_alive buffer now c = put_uint8 buffer 0 16 1 >>= λ (mem, p).
    put_uint16 mem p 11 c.session_id >>= λ (mem', p').
    let c' =
      send c confirmable (host_order_int (next_token c)) keep_alive_path
        (take (length_of p') mem') in
    some (record c' { last_keep_alive = now; keep_alive_tx_count = c.keep_alive_tx_count + 1 })

-- The end of `Process`: the keep-alive timer, in seconds.
unfoldable pub process_timer : List ℕ → ℕ → Commissioner → Option Commissioner
process_timer buffer now c =
    if is_state c.state accepted
      && (ltb 0 c.keep_alive_rate && ltb (c.last_keep_alive + c.keep_alive_rate) now)
    then commissioner_keep_alive buffer now c
    else some c

-- `out[0] &= 0xfd`, and the first eight bytes.
unfoldable pub clear_local : List ℕ → List ℕ
clear_local [] = []
clear_local (b ∷ bytes) = bit_and b 0xfd ∷ bytes

module _ (sha256 : List ℕ → List ℕ) where
  -- The loop of `FindEui`, with fuel: the entry whose hash is `mac`, if there is one.
  pub find_instance : ℕ → List JoinerInstance → List ℕ → ℕ → Option (Option JoinerInstance)
  find_instance zero vector mac num = none
  find_instance (suc fuel) vector mac num = elim (instance_at vector num) [
    | none ↦ none
    | some none ↦ some none
    | some (some inst) ↦
        let rest = find_instance fuel vector mac (num + 1) in
        if same_text mac (take 8 (clear_local (sha256 inst.eui64_bin)))
        then some (some inst)
        else rest
  ]

  -- Setting the key needs a joiner session.
  unfoldable pub find_eui : List JoinerInstance → List ℕ → Commissioner → Option Commissioner
  find_eui vector mac c = find_instance (suc (length vector)) vector mac 0 >>= λ found. elim found [
    | none ↦ some c
    | some inst ↦ c.joiner_session >>= λ s.
        some (record c { joiner_session = some (set_psk s inst.pskd_ascii) })
  ]

  module _ (sends : List ℕ → Bool) where
    -- One round of the loop of `HandleRelayReceive`; `sends` is whether `send` takes the bytes.
    unfoldable pub relay_body :
        List JoinerInstance → List ℕ → ℕ → Commissioner → Control Commissioner
    relay_body vector payload p c = elim (get_type payload p) [
      | none ↦ fault
      | some type ↦
          if type == 17
          then elim (get_value payload p >>= λ v. get_length payload p >>= λ n. load payload v n) [
            | none ↦ fault
            | some bytes ↦
                let c' = record c { relayed = c.relayed ++ bytes ∷ [] } in
                if sends bytes then continue c' else leave c
          ]
          else if type == 18
          then control
              (get_value_uint16 payload p >>= λ port. some (record c { joiner_udp_port = port }))
          else if type == 19
          then control (
              get_value payload p >>= λ v.
              load payload v 8 >>= λ iid. find_eui vector iid (record c { joiner_iid = iid }))
          else if type == 20
          then control
              (get_value_uint16 payload p >>= λ at. some (record c { joiner_router_locator = at }))
          else continue c
    ]

    unfoldable pub handle_relay_receive :
        List JoinerInstance → List ℕ → Commissioner → Walked Commissioner
    handle_relay_receive vector payload c = walk_payload (relay_body vector) payload c

-- The KEK entry of `SendRelayTransmit`, which is written once after a finished join.
unfoldable pub append_kek : List ℕ → ℕ → JoinerSession → Option (List ℕ × ℕ × JoinerSession)
append_kek mem p s =
    if s.need_append_kek
    then (put mem p 21 (get_kek s 32) false >>= λ (mem', p'). some (mem', p', mark_kek_sent s))
    else some (mem, p, s)

unfoldable pub send_relay_transmit : List ℕ → List ℕ → Commissioner → Option Commissioner
send_relay_transmit buffer buf c = put buffer 0 17 buf false >>= λ (m1, p1).
    put_uint16 m1 p1 18 c.joiner_udp_port >>= λ (m2, p2).
    put m2 p2 19 c.joiner_iid false >>= λ (m3, p3).
    put_uint16 m3 p3 20 c.joiner_router_locator >>= λ (m4, p4). c.joiner_session >>= λ s.
    append_kek m4 p4 s >>= λ (m5, p5, s'). some (
      send (record c { joiner_session = some s' }) non_confirmable (host_order (next_token c))
        relay_tx_path (take (length_of p5) m5))
