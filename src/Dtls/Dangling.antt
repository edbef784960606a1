-- ===== src/Dtls/Dangling.antt =====
-- dtls_mbedtls.cpp: a session that is deleted while the joiner session holds it.
use commissioner.Prelude.{
  ℕ, ◌+◌, ◌%◌, ◌^◌, ◌≡◌, refl, ap, ◌∙◌, Option, none, some, List, arith, Bool-cases, inl, inr, leb,
}
use commissioner.JoinerSession.{JoinerSession, handshaking, ready, error}
use commissioner.Dtls.{
  Session, HandshakeAnswer, refused, ReadAnswer, reconnect, Server, put_session, session_timeout,
  read_session, handshake, close_session, process_session, process_at, visit, destroy, notify,
}

module _ (kek : ℕ → List ℕ) where
  put_same :
      (sessions : ℕ → Option Session) (k : ℕ) (s : Option Session) → put_session sessions k s k ≡ s
  put_same sessions k s = ground arith

  reconnects :
      (k now : ℕ) (h : HandshakeAnswer) (v : Server) (s : Session)
      → v.sessions k ≡ some s
      → s.state ≡ ready
      → (t : Session) × ((process_at kek k now h reconnect v).sessions k ≡ some t)
        × (t.state ≡ handshaking)
        × ((process_at kek k now h reconnect v).joiner ≡ v.joiner)
  unfolding process_at process_session read_session
  reconnects k now h v s e st =
      let t : Session = record s {
        expiration = (now + session_timeout) % 2 ^ 64;
        state = handshaking;
      } in
      (
        t,
        rw (e, st, process_at, process_session) (put_same v.sessions k (some t)),
        refl,
        rw (e, st, process_at, process_session) refl,
      )

  fails_again :
      (k now : ℕ) (r : ReadAnswer) (v : Server) (s : Session)
      → v.sessions k ≡ some s
      → s.state ≡ handshaking
      → (t : Session) × ((process_at kek k now refused r v).sessions k ≡ some t)
        × (t.state ≡ error)
        × ((process_at kek k now refused r v).joiner ≡ v.joiner)
  unfolding process_at process_session handshake
  fails_again k now r v s e st =
      let t : Session = record s { expiration = (now + session_timeout) % 2 ^ 64; state = error } in
      (
        t,
        rw (e, st, process_at, process_session) (put_same v.sessions k (some t)),
        refl,
        rw (e, st, process_at, process_session) refl,
      )

  deleted :
      (k now : ℕ) (v : Server) (s : Session)
      → v.sessions k ≡ some s
      → s.state ≡ error
      → ((visit kek k now v).0.sessions k ≡ none) × ((visit kek k now v).0.joiner ≡ v.joiner)
  unfolding visit destroy close_session notify
  deleted k now v s e st = elim (Bool-cases (leb s.expiration now)) [
    | inl d ↦ (
      rw (e, d, visit) (put_same v.sessions k none),
      rw (e, d, st, visit, destroy, close_session) refl,
    )
    | inr d ↦ (
      rw (e, d, st, visit) (put_same v.sessions k none),
      rw (e, d, st, visit, destroy, close_session) refl,
    )
  ]

  -- A session that the joiner session holds, whose peer starts the handshake again and fails it, is
  -- deleted at the next round of the loop, and the joiner session is not told: it holds the deleted one.
  pub dangling :
      (k n1 n2 n3 : ℕ) (h : HandshakeAnswer) (r : ReadAnswer) (v : Server) (s : Session)
      → v.sessions k ≡ some s
      → s.state ≡ ready
      → v.joiner.dtls_session ≡ some k
      → ((visit kek k n3
              (process_at kek k n2 refused r (process_at kek k n1 h reconnect v))).0.sessions
            k
          ≡ none)
        × ((visit kek k n3 (
              process_at kek k n2 refused r
                (process_at kek k n1 h reconnect v))).0.joiner.dtls_session
            ≡ some k)
  dangling k n1 n2 n3 h r v s e st p =
      let (t, e1, st1, j1) = reconnects k n1 h v s e st in
      let v1 = process_at kek k n1 h reconnect v in
      let (u, e2, st2, j2) = fails_again k n2 r v1 t e1 st1 in
      let v2 = process_at kek k n2 refused r v1 in
      let (gone, j3) = deleted k n3 v2 u e2 st2 in
      (gone, ap (λ (j : JoinerSession). j.dtls_session) (j3 ∙ j2 ∙ j1) ∙ p)
