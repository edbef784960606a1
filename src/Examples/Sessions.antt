-- ===== src/Examples/Sessions.antt =====
-- The theorems on the DTLS sessions.
use commissioner.Prelude.{
  ℕ, ◌≡◌, refl, true, false, none, some, List, [], ◌∷◌, replicate, ◌==◌, if◌then◌else◌,
}
use commissioner.JoinerSession.{handshaking, ready}
use commissioner.Dtls.{
  Session, finished, refused, data_read, reconnect, Server, process_at, accept, visit,
}
use commissioner.Dtls.Alive.{is_open}
use commissioner.Dtls.Held.{here, next, accepts, Reach-IsHeld}
use commissioner.Dtls.Dangling.{dangling}

abbrev key : ℕ → List ℕ
key i = replicate 32 7

abbrev memory : Session
memory = record {
  state = handshaking;
  expiration = 0;
  intermediate = 0;
  final = 0;
  is_timer_set = false;
}

abbrev idle_server : Server
idle_server = record {
  sessions = λ i. none;
  order = [];
  joiner = record { kek = replicate 32 0; psk = []; dtls_session = none; need_append_kek = false };
}

Reach-IsHeld_example :
    (s : Session) × ((accept key 3 100 memory finished idle_server).sessions 3 ≡ some s)
    × (is_open s.state ≡ true)
unfolding accept
Reach-IsHeld_example =
    Reach-IsHeld key {v = idle_server} {w = accept key 3 100 memory finished idle_server} 3 refl
      (next here (accepts 3 100 memory finished refl)) refl

abbrev open_server : Server
open_server = record {
  sessions = λ i. if i == 3 then some (record memory { state = ready }) else none;
  order = 3 ∷ [];
  joiner = record {
    kek = replicate 32 7;
    psk = [];
    dtls_session = some 3;
    need_append_kek = false;
  };
}

dangling_example :
    ((visit key 3 300 (
          process_at key 3 200 refused data_read
            (process_at key 3 100 finished reconnect open_server))).0.sessions
        3
      ≡ none)
    × ((visit key 3 300 (
          process_at key 3 200 refused data_read
            (process_at key 3 100 finished reconnect open_server))).0.joiner.dtls_session
        ≡ some 3)
dangling_example =
    dangling key 3 100 200 300 finished data_read open_server (record memory { state = ready }) refl
      refl refl
