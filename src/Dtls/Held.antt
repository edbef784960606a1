-- ===== src/Dtls/Held.antt =====
-- dtls_mbedtls.cpp: histories of a server whose peers do not reconnect.
use commissioner.Prelude.{
  ℕ, ◌≡◌, ◌≢◌, inl, inr, refl, ap, sym, ◌∙◌, true, false, none, some, List, [], ◌∷◌, Bool-cases,
  Option-cases, leb,
}
use commissioner.JoinerSession.{
  JoinerSession, SessionState, handshaking, ready, close, error, end, expired,
}
use commissioner.Dtls.{
  Session, HandshakeAnswer, ReadAnswer, data_read, closed_by_peer, reconnect, timed_out, failed,
  Server, set_state, close_session, process_session, process_at, write_failed, accept, new_session,
  destroy, visit, visit_all, update_fd_set, is_alive,
}
use commissioner.Dtls.Alive.{
  is_open, Holds, Kept, forgotten, other, Kept-Holds, closed, process_session-Kept,
}

module _ (kek : ℕ → List ℕ) where
  abbrev pub IsHeld : Server → Type 0
  IsHeld v = Holds v.sessions v.joiner

  held_open :
      (k : ℕ) (v : Server) (s : Session)
      → IsHeld v
      → v.sessions k ≡ some s
      → v.joiner.dtls_session ≡ some k
      → is_open s.state ≡ true
  held_open k v s held e p =
      let (t, l, o) = held k p in
      ap (λ x. elim x [ none ↦ true | some y ↦ is_open y.state ]) (sym e ∙ l) ∙ o

  process_at-IsHeld :
      (k now : ℕ) (h : HandshakeAnswer) (r : ReadAnswer) (v : Server)
      → r ≢ reconnect
      → IsHeld v
      → IsHeld (process_at kek k now h r v)
  unfolding process_at
  process_at-IsHeld k now h r v n held = elim (Option-cases (v.sessions k)) [
    | inl e ↦ rw (e, process_at) held
    | inr (s, e) ↦
        let q = process_session kek k now h r s v.joiner in
        rw (e, process_at)
          (Kept-Holds k v.sessions (some q.0) v.joiner q.1
            (process_session-Kept kek k now h r s.state s v.joiner n refl (held_open k v s held e))
            held)
  ]

  write_failed-IsHeld : (k : ℕ) (v : Server) → IsHeld v → IsHeld (write_failed kek k v)
  unfolding write_failed
  write_failed-IsHeld k v held = elim (Option-cases (v.sessions k)) [
    | inl e ↦ rw (e, write_failed) held
    | inr (s, e) ↦
        rw (e, write_failed)
          (Kept-Holds k v.sessions (some (set_state kek k error s v.joiner).0) v.joiner
            (set_state kek k error s v.joiner).1 (forgotten refl) held)
  ]

  accept-IsHeld :
      (k now : ℕ) (memory : Session) (h : HandshakeAnswer) (v : Server)
      → v.sessions k ≡ none
      → IsHeld v
      → IsHeld (accept kek k now memory h v)
  unfolding accept
  accept-IsHeld k now memory h v fresh held = process_at-IsHeld k now h data_read _ distinct (
      Kept-Holds k v.sessions (some (new_session kek memory)) v.joiner v.joiner (other refl unused)
        held)
    where
      distinct : data_read ≢ reconnect
      distinct e = impossible (
          ap
            (λ r. elim r [
              | data_read ↦ true
              | reconnect ↦ false
              | closed_by_peer ↦ true
              | timed_out ↦ true
              | failed ↦ true
            ])
            e)
        where
          impossible : true ≡ false → ⊥
          impossible x = cc

      unused : v.joiner.dtls_session ≡ some k → ⊥
      unused p = let (s, e, o) = held k p in missing (sym fresh ∙ e)
        where
          missing : {s : Session} → none ≡ some s → ⊥
          missing x = cc

  close_session-Kept :
      (k : ℕ) (st : SessionState) (s : Session) (joiner : JoinerSession)
      → (joiner.dtls_session ≡ some k → is_open st ≡ true)
      → Kept k joiner.dtls_session
          (close_session kek k (record s { state = st }) joiner).1.dtls_session
          none
  unfolding close_session
  close_session-Kept k handshaking s joiner held = forgotten refl
  close_session-Kept k ready s joiner held = forgotten refl
  close_session-Kept k close s joiner held = forgotten refl
  close_session-Kept k expired s joiner held = forgotten refl
  close_session-Kept k error s joiner held = other refl λ p. closed (held p) refl
  close_session-Kept k end s joiner held = other refl λ p. closed (held p) refl

  destroy-IsHeld :
      (k : ℕ) (s : Session) (v : Server)
      → v.sessions k ≡ some s
      → IsHeld v
      → IsHeld (destroy kek k s v)
  unfolding destroy
  destroy-IsHeld k s v e held =
      Kept-Holds k v.sessions none v.joiner (close_session kek k s v.joiner).1
        (close_session-Kept k s.state s v.joiner (held_open k v s held e)) held

  visit-IsHeld : (k now : ℕ) (v : Server) → IsHeld v → IsHeld (visit kek k now v).0
  unfolding visit
  visit-IsHeld k now v held = elim (Option-cases (v.sessions k)) [
    | inl e ↦ rw (e, visit) held
    | inr (s, e) ↦ elim (Bool-cases (leb s.expiration now)) [
      | inl d ↦ rw (e, d, visit) (destroy-IsHeld k s v e held)
      | inr d ↦ elim (Bool-cases (is_alive kek s.state)) [
        | inl a ↦ rw (e, d, a, visit) held
        | inr a ↦ rw (e, d, a, visit) (destroy-IsHeld k s v e held)
      ]
    ]
  ]

  visit_all-IsHeld :
      (order : List ℕ) (now : ℕ) (v : Server) → IsHeld v → IsHeld (visit_all kek order now v).0
  unfolding visit_all
  visit_all-IsHeld [] now v held = held
  visit_all-IsHeld (k ∷ order) now v held = visit_all-IsHeld order now _ (visit-IsHeld k now v held)

  -- What happens to a server whose peers do not reconnect.
  pub data Step : Server → Server → Type 0 where
    processes :
        {v : Server} (k now : ℕ) (h : HandshakeAnswer) (r : ReadAnswer)
        → r ≢ reconnect
        → Step v (process_at kek k now h r v)
    fails : {v : Server} (k : ℕ) → Step v (write_failed kek k v)
    accepts :
        {v : Server} (k now : ℕ) (memory : Session) (h : HandshakeAnswer)
        → v.sessions k ≡ none
        → Step v (accept kek k now memory h v)
    updates : {v : Server} (now : ℕ) → Step v (update_fd_set kek now v)

  pub data Reach (v : Server) : Server → Type 0 where
    here : Reach v v
    next : {w x : Server} → Reach v w → Step w x → Reach v x

  Step-IsHeld : {v : Server} {w : Server} → Step v w → IsHeld v → IsHeld w
  unfolding update_fd_set
  Step-IsHeld {v} (processes k now h r n) held = process_at-IsHeld k now h r v n held
  Step-IsHeld {v} (fails k) held = write_failed-IsHeld k v held
  Step-IsHeld {v} (accepts k now memory h fresh) held = accept-IsHeld k now memory h v fresh held
  Step-IsHeld {v} (updates now) held = visit_all-IsHeld v.order now v held

  -- From a server without sessions whose joiner session has none, whatever handshakes, packets, errors
  -- and timeouts come, as long as no peer reconnects: a session that the joiner session holds has not
  -- been deleted, and is one that has been ready and is at most closed by its peer.
  pub Reach-IsHeld :
      {v w : Server} (i : ℕ)
      → v.joiner.dtls_session ≡ none
      → Reach v w
      → w.joiner.dtls_session ≡ some i
      → (s : Session) × (w.sessions i ≡ some s) × (is_open s.state ≡ true)
  Reach-IsHeld {v} i empty r = all r i
    where
      none_held : IsHeld v
      none_held j e = absurd (missing (sym empty ∙ e))
        where
          missing : none ≡ some j → ⊥
          missing x = cc

      all : {w : Server} → Reach v w → IsHeld w
      all here = none_held
      all (next r st) = Step-IsHeld st (all r)
