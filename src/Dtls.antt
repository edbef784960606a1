-- ===== src/Dtls.antt =====
-- lib/borderrouter/src/agent/dtls_mbedtls.cpp with lib/borderrouter/src/agent/dtls.hpp: the DTLS server
-- and the life of its sessions, with the joiner session of the commissioner as its state handler. A
-- session is named by a number, its address; what mbed TLS returns and the clock are arguments.
pub mod Alive
pub mod Held
pub mod Dangling
use commissioner.Prelude.{
  ℕ, zero, suc, ◌+◌, ◌-◌, ◌*◌, ◌/◌, ◌%◌, ◌^◌, Bool, true, false, ◌&&◌, Option, none, some, List, [],
  ◌∷◌, ◌++◌, ltb, leb, ◌==◌, if◌then◌else◌, length, not,
}
use commissioner.JoinerSession.{
  JoinerSession, SessionState, handshaking, ready, close, error, end, expired,
  handle_session_change,
}

pub record Session : Type 0 where
  pub state : SessionState
  pub expiration : ℕ
  pub intermediate : ℕ
  pub final : ℕ
  pub is_timer_set : Bool

-- What `mbedtls_ssl_handshake` returns.
pub data HandshakeAnswer : Type 0 where
  finished pending refused : HandshakeAnswer

-- What the loop around `mbedtls_ssl_read` ends with.
pub data ReadAnswer : Type 0 where
  data_read closed_by_peer reconnect timed_out failed : ReadAnswer

-- The sessions by their address, and the order of `mSessions`.
pub record Server : Type 0 where
  pub sessions : ℕ → Option Session
  pub order : List ℕ
  pub joiner : JoinerSession

abbrev pub session_timeout : ℕ
session_timeout = 60000

abbrev pub put_session : (ℕ → Option Session) → ℕ → Option Session → ℕ → Option Session
put_session sessions i s j = if j == i then s else sessions j

-- `static_cast<long>(time - now) <= 0`, of unsigned numbers.
abbrev pub has_come : ℕ → ℕ → Bool
has_come time now =
    let d = (time + 2 ^ 64 - now) % 2 ^ 64 in if d == 0 then true else leb (2 ^ 63) d

unfoldable pub set_delay : ℕ → ℕ → ℕ → Session → Session
set_delay now intermediate final s =
    if final == 0 then record s { is_timer_set = false } else record s {
      intermediate = (now + intermediate) % 2 ^ 64;
      final = (now + final) % 2 ^ 64;
      is_timer_set = true;
    }

-- `none` is -1, for no timer.
unfoldable pub get_delay : ℕ → Session → Option ℕ
get_delay now s =
    if s.is_timer_set
    then some (if has_come s.final now then 2 else if has_come s.intermediate now then 1 else 0)
    else none

module _ (kek : ℕ → List ℕ) where
  -- `HandleSessionState`.
  unfoldable pub notify : ℕ → SessionState → JoinerSession → JoinerSession
  unfolding handle_session_change
  notify i state joiner = handle_session_change joiner i (kek i) state

  unfoldable pub set_state : ℕ → SessionState → Session → JoinerSession → Session × JoinerSession
  unfolding notify
  set_state i state s joiner = (record s { state = state }, notify i state joiner)

  -- `Close`, which the destructor calls.
  unfoldable pub close_session : ℕ → Session → JoinerSession → Session × JoinerSession
  unfolding set_state
  close_session i s joiner = elim s.state [
    | error ↦ (s, joiner)
    | end ↦ (s, joiner)
    | handshaking ↦ set_state i end s joiner
    | ready ↦ set_state i end s joiner
    | close ↦ set_state i end s joiner
    | expired ↦ set_state i end s joiner
  ]

  -- A failed handshake sets the state without the handler.
  unfoldable pub handshake : ℕ → HandshakeAnswer → Session → JoinerSession → Session × JoinerSession
  unfolding set_state
  handshake i finished s joiner = set_state i ready s joiner
  handshake i pending s joiner = (s, joiner)
  handshake i refused s joiner = (record s { state = error }, joiner)

  unfoldable pub read_session : ℕ → ReadAnswer → Session → JoinerSession → Session × JoinerSession
  unfolding set_state
  read_session i data_read s joiner = (s, joiner)
  read_session i closed_by_peer s joiner = set_state i close s joiner
  read_session i reconnect s joiner = set_state i handshaking s joiner
  read_session i timed_out s joiner = (s, joiner)
  read_session i failed s joiner = set_state i error s joiner

  unfoldable pub process_session :
      ℕ → ℕ → HandshakeAnswer → ReadAnswer → Session → JoinerSession → Session × JoinerSession
  unfolding handshake read_session
  process_session i now h r s joiner =
      let s' = record s { expiration = (now + session_timeout) % 2 ^ 64 } in
      elim s.state [
        | handshaking ↦ handshake i h s' joiner
        | ready ↦ read_session i r s' joiner
        | close ↦ (s', joiner)
        | error ↦ (s', joiner)
        | end ↦ (s', joiner)
        | expired ↦ (s', joiner)
      ]

  -- The body of the loop of `Process` for a session whose descriptor is readable.
  unfoldable pub process_at : ℕ → ℕ → HandshakeAnswer → ReadAnswer → Server → Server
  unfolding process_session
  process_at i now h r v = elim (v.sessions i) [
    | none ↦ v
    | some s ↦
        let (s', joiner) = process_session i now h r s v.joiner in
        record v { sessions = put_session v.sessions i (some s'); joiner = joiner }
  ]

  -- `Write`, when mbed TLS has returned an error.
  unfoldable pub write_failed : ℕ → Server → Server
  unfolding set_state
  write_failed i v = elim (v.sessions i) [
    | none ↦ v
    | some s ↦
        let (s', joiner) = set_state i error s v.joiner in
        record v { sessions = put_session v.sessions i (some s'); joiner = joiner }
  ]

  -- The session at a new address after `Init`; the rest of its memory is not initialised.
  abbrev pub new_session : Session → Session
  new_session memory = record memory { state = handshaking; is_timer_set = false }

  -- The new session of `ProcessServer`, and its first `Process`.
  unfoldable pub accept : ℕ → ℕ → Session → HandshakeAnswer → Server → Server
  unfolding process_at
  accept i now memory h v = process_at i now h data_read (record v {
    sessions = put_session v.sessions i (some (new_session memory));
    order = v.order ++ i ∷ [];
  })

  -- `delete session`.
  unfoldable pub destroy : ℕ → Session → Server → Server
  unfolding close_session
  destroy i s v = record v {
    sessions = put_session v.sessions i none;
    joiner = (close_session i s v.joiner).1;
  }

  abbrev pub is_alive : SessionState → Bool
  is_alive ready = true
  is_alive handshaking = true
  is_alive _ = false

  -- The body of the loop of `UpdateFdSet`, and whether the session stays in the list.
  unfoldable pub visit : ℕ → ℕ → Server → Server × Bool
  unfolding destroy notify
  visit i now v = elim (v.sessions i) [
    | none ↦ (v, false)
    | some s ↦
        if leb s.expiration now
        then (destroy i s (record v { joiner = notify i expired v.joiner }), false)
        else if is_alive s.state
        then (v, true)
        else (destroy i s v, false)
  ]

  unfoldable pub visit_all : List ℕ → ℕ → Server → Server × List ℕ
  unfolding visit
  visit_all [] now v = (v, [])
  visit_all (i ∷ order) now v =
      let (v', kept) = visit i now v in
      let (v'', order') = visit_all order now v' in (v'', if kept then i ∷ order' else order')

  unfoldable pub update_fd_set : ℕ → Server → Server
  unfolding visit_all
  update_fd_set now v = let (v', order) = visit_all v.order now v in record v' { order = order }
