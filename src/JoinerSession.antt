-- ===== src/JoinerSession.antt =====
-- lib/borderrouter/src/commissioner/joiner_session.cpp: the DTLS server that a joiner talks to.
-- The server and the sessions are the program's DTLS layer; a session is named by a number.
use commissioner.Prelude.{
  ℕ, ◌%◌, ◌^◌, Bool, true, false, Option, none, some, List, [], ◌∷◌, ltb, if◌then◌else◌, take,
}
use commissioner.Prelude.Chain.{◌>>=◌}
use commissioner.Common.Tlv.{put, put_uint8}

pub data SessionState : Type 0 where
  handshaking ready close error end expired : SessionState

pub record JoinerSession : Type 0 where
  pub kek : List ℕ
  pub psk : List ℕ
  pub dtls_session : Option ℕ
  pub need_append_kek : Bool

-- The key memory is not initialised by the constructor.
unfoldable pub make : List ℕ → List ℕ → JoinerSession
make kek pskd_ascii = record {
  kek = kek;
  psk = pskd_ascii;
  dtls_session = none;
  need_append_kek = false;
}

unfoldable pub set_psk : JoinerSession → List ℕ → JoinerSession
set_psk s pskd_ascii = record s { psk = pskd_ascii }

-- `session_kek` is what the session's `GetKek` returns.
unfoldable pub handle_session_change : JoinerSession → ℕ → List ℕ → SessionState → JoinerSession
handle_session_change s session session_kek ready = record s {
  kek = take 32 session_kek;
  dtls_session = some session;
}
handle_session_change s session session_kek close = s
handle_session_change s session session_kek error = record s { dtls_session = none }
handle_session_change s session session_kek end = record s { dtls_session = none }
handle_session_change s session session_kek handshaking = s
handle_session_change s session session_kek expired = s

-- What is handed to the session's `Write`; `none` is the error -1.
unfoldable pub send_coap : JoinerSession → List ℕ → Option (ℕ × List ℕ)
send_coap s buffer = s.dtls_session >>= λ session. some (session, buffer)

abbrev pub test_text : List ℕ
test_text = b't' ∷ b'e' ∷ b's' ∷ b't' ∷ 13 ∷ 10 ∷ []

-- The payload of the piggybacked response, written into the local array of 50 bytes.
unfoldable pub finalize_payload : List ℕ → Option (List ℕ)
finalize_payload payload = put_uint8 payload 0 16 1 >>= λ (mem, p).
    put mem p 48 test_text false >>= λ (mem', p'). some (take (p' % 2 ^ 16) mem')

unfoldable pub handle_joiner_finalize : JoinerSession → List ℕ → Option (JoinerSession × List ℕ)
handle_joiner_finalize s payload =
    finalize_payload payload >>= λ response. some (record s { need_append_kek = true }, response)

unfoldable pub mark_kek_sent : JoinerSession → JoinerSession
mark_kek_sent s = record s { need_append_kek = false }

-- The bytes that are copied: the smaller of the key's size and the buffer's.
unfoldable pub get_kek : JoinerSession → ℕ → List ℕ
get_kek s buf_size = take (if ltb 32 buf_size then 32 else buf_size) s.kek
