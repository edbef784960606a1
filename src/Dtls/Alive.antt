-- ===== src/Dtls/Alive.antt =====
-- dtls_mbedtls.cpp: the session that the joiner session holds.
use commissioner.Prelude.{
  ℕ, ◌≡◌, ◌≢◌, inl, inr, refl, ap, sym, ◌∙◌, Bool, true, false, Option, none, some, List, arith,
  Bool-cases, ◌==◌,
}
use commissioner.JoinerSession.{
  JoinerSession, SessionState, handshaking, ready, close, error, end, expired,
}
use commissioner.Dtls.{
  Session, HandshakeAnswer, finished, pending, refused, ReadAnswer, data_read, closed_by_peer,
  reconnect, timed_out, failed, put_session, handshake, read_session, process_session,
}

abbrev pub is_open : SessionState → Bool
is_open ready = true
is_open close = true
is_open _ = false

-- The session that the joiner session points to, if any, exists and is open.
abbrev pub Holds : (ℕ → Option Session) → JoinerSession → Type 0
Holds sessions joiner =
    (i : ℕ)
    → joiner.dtls_session ≡ some i
    → (s : Session) × (sessions i ≡ some s) × (is_open s.state ≡ true)

-- After a step on session `k`: the pointer is gone, or it goes to `k`, which is open, or it is the old
-- one, which went elsewhere or to a session that is open still.
pub data Kept (k : ℕ) (old new : Option ℕ) (after : Option Session) : Type 0 where
  forgotten : new ≡ none → Kept k old new after
  taken :
      (s : Session) → new ≡ some k → after ≡ some s → is_open s.state ≡ true → Kept k old new after
  other : new ≡ old → (old ≡ some k → ⊥) → Kept k old new after
  same : (s : Session) → new ≡ old → after ≡ some s → is_open s.state ≡ true → Kept k old new after

unequal : {i k : ℕ} → (i == k) ≡ true → i ≡ k
unequal h = ground (arith, h)

pub Kept-Holds :
    (k : ℕ) (sessions : ℕ → Option Session) (after : Option Session) (old new : JoinerSession)
    → Kept k old.dtls_session new.dtls_session after
    → Holds sessions old
    → Holds (put_session sessions k after) new
Kept-Holds k sessions after old new (forgotten n) v i e = absurd (impossible (sym n ∙ e))
  where
    impossible : none ≡ some i → ⊥
    impossible h = cc
Kept-Holds k sessions after old new (taken s n a o) v i e =
    let h : i ≡ k = ap (λ x. elim x [ none ↦ i | some j ↦ j ]) (sym e ∙ n) in
    let b : (i == k) ≡ true = ground (arith, h) in (s, rw b a, o)
Kept-Holds k sessions after old new (other n d) v i e = elim (Bool-cases (i == k)) [
  | inl b ↦ absurd (d (sym n ∙ e ∙ ap some (unequal b)))
  | inr b ↦ let (s, l, o) = v i (sym n ∙ e) in (s, rw b l, o)
]
Kept-Holds k sessions after old new (same s n a o) v i e = elim (Bool-cases (i == k)) [
  | inl b ↦ (s, rw b a, o)
  | inr b ↦ let (t, l, q) = v i (sym n ∙ e) in (t, rw b l, q)
]

pub closed : {b : Bool} → b ≡ true → b ≡ false → ⊥
closed h k = cc

module _ (kek : ℕ → List ℕ) where
  abbrev Result : ℕ → JoinerSession → Session × JoinerSession → Type 0
  Result k joiner (s, joiner') = Kept k joiner.dtls_session joiner'.dtls_session (some s)

  -- A session that keeps its state keeps the pointer right.
  stays :
      (k : ℕ) (s s' : Session) (joiner : JoinerSession)
      → s'.state ≡ s.state
      → (joiner.dtls_session ≡ some k → is_open s.state ≡ true)
      → Kept k joiner.dtls_session joiner.dtls_session (some s')
  stays k s s' joiner e held = elim (Bool-cases (is_open s.state)) [
    | inl o ↦ same s' refl refl (ap is_open e ∙ o)
    | inr c ↦ other refl λ h. closed (held h) c
  ]

  handshake-Kept :
      (k : ℕ) (h : HandshakeAnswer) (s : Session) (joiner : JoinerSession)
      → (joiner.dtls_session ≡ some k → ⊥)
      → Result k joiner (handshake kek k h s joiner)
  unfolding handshake
  handshake-Kept k finished s joiner d = taken _ refl refl refl
  handshake-Kept k pending s joiner d = other refl d
  handshake-Kept k refused s joiner d = other refl d

  read_session-Kept :
      (k : ℕ) (r : ReadAnswer) (s : Session) (joiner : JoinerSession)
      → r ≢ reconnect
      → s.state ≡ ready
      → Result k joiner (read_session kek k r s joiner)
  unfolding read_session
  read_session-Kept k data_read s joiner n e = same s refl refl (ap is_open e)
  read_session-Kept k closed_by_peer s joiner n e = same _ refl refl refl
  read_session-Kept k reconnect s joiner n e = absurd (n refl)
  read_session-Kept k timed_out s joiner n e = same s refl refl (ap is_open e)
  read_session-Kept k failed s joiner n e = forgotten refl

  pub process_session-Kept :
      (k now : ℕ) (h : HandshakeAnswer) (r : ReadAnswer) (st : SessionState) (s : Session)
      (joiner : JoinerSession)
      → r ≢ reconnect
      → s.state ≡ st
      → (joiner.dtls_session ≡ some k → is_open st ≡ true)
      → Result k joiner (process_session kek k now h r (record s { state = st }) joiner)
  unfolding process_session
  process_session-Kept k now h r handshaking s joiner n e held =
      handshake-Kept k h _ joiner λ p. closed (held p) refl
  process_session-Kept k now h r ready s joiner n e held = read_session-Kept k r _ joiner n refl
  process_session-Kept k now h r close s joiner n e held = same _ refl refl refl
  process_session-Kept k now h r error s joiner n e held = other refl λ p. closed (held p) refl
  process_session-Kept k now h r end s joiner n e held = other refl λ p. closed (held p) refl
  process_session-Kept k now h r expired s joiner n e held = other refl λ p. closed (held p) refl
