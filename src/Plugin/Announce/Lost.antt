-- ===== src/Plugin/Announce/Lost.antt =====
-- comm.cpp: steering data that the border agent is never told.
use commissioner.Prelude.{
  ℕ, zero, suc, ◌≡◌, ◌≢◌, refl, ap, sym, subst, ◌∙◌, inl, inr, true, false, Option, none, some,
  List, ◌++◌, length, All, Option-cases,
}
use commissioner.Prelude.Chain.{◌>>=◌}
use commissioner.Utils.SteeringData.Filter.{IsFilter}
use commissioner.Commissioner.{Commissioner, Message, set_path, commissioner_set, set_joiner}
use commissioner.JoinerList.{JoinerList, StatusCode, edit, list_update_finished}
use commissioner.JoinerList.Json.{Jansson}
use commissioner.Plugin.Announce.{
  RoundPc, testing, clearing, default_pskd, round_step, announce_steering, announce,
}
use commissioner.Plugin.Announce.Announced.{
  Told, last_set, last_set-append, last_set-skip, announce_steering-Told,
}

some-inverse {ℓ} : {A : Type ℓ} {x y : A} → some x ≡ some y → x ≡ y
some-inverse h = cc

module _ (sha256 : List ℕ → List ℕ) (J : Jansson) where
  -- The worker's calls from a state on, with other messages between them, while no request changes the
  -- list.
  pub data Rounds (pc : RoundPc) (l : JoinerList sha256 J) (c : Commissioner)
      : RoundPc → JoinerList sha256 J → Commissioner → Type 0 where
    start : Rounds pc l c pc l c
    steps :
        {p q : RoundPc} {l' l'' : JoinerList sha256 J} {c' c'' : Commissioner} (buffer kek : List ℕ)
        → Rounds pc l c p l' c'
        → round_step sha256 J buffer kek p l' c' ≡ some (q, l'', c'')
        → Rounds pc l c q l'' c''
    works :
        {p : RoundPc} {l' : JoinerList sha256 J} {c' c'' : Commissioner} (ms : List Message)
        → Rounds pc l c p l' c'
        → c''.sent ≡ c'.sent ++ ms
        → All (λ m. m.path ≢ set_path) ms
        → Rounds pc l c p l' c''

  -- Some calls in a row, with the same memory.
  abbrev pub round_steps :
      List ℕ
      → List ℕ
      → ℕ
      → RoundPc
      → JoinerList sha256 J
      → Commissioner
      → Option (RoundPc × JoinerList sha256 J × Commissioner)
  round_steps buffer kek zero pc l c = some (pc, l, c)
  round_steps buffer kek (suc n) pc l c =
      round_step sha256 J buffer kek pc l c >>= λ (pc', l', c'). round_steps buffer kek n pc' l' c'

  -- Four calls in a row are a round.
  round_steps-announce :
      (buffer kek : List ℕ) (l : JoinerList sha256 J) (c : Commissioner)
      → l.updated ≡ true
      → round_steps buffer kek 4 testing l c
        ≡ (announce sha256 J buffer kek l c >>= λ (l', c'). some (testing, l', c'))
  unfolding round_step announce announce_steering
  round_steps-announce buffer kek l c u =
      elim (Option-cases (commissioner_set buffer l.steering c)) [
        | inl e ↦ rw (u, e, round_step, announce, announce_steering) refl
        | inr (d, e) ↦ rw (u, e, round_step, announce, announce_steering) refl
      ]

  -- The first three of them.
  pub told_lem :
      (buffer kek : List ℕ) (l : JoinerList sha256 J) (c d : Commissioner)
      → l.updated ≡ true
      → announce_steering sha256 J buffer kek l c ≡ some d
      → round_steps buffer kek 3 testing l c ≡ some (clearing, l, d)
  unfolding round_step announce_steering
  told_lem buffer kek l c d u h = elim (Option-cases (commissioner_set buffer l.steering c)) [
    | inl e ↦ absurd (nothing_some (sym (rw (e, announce_steering) refl) ∙ h))
    | inr (d', e) ↦
        let same : set_joiner d' kek default_pskd ≡ d =
          some-inverse (sym (rw (e, announce_steering) refl) ∙ h) in
        rw (u, e, same, round_step) refl
  ]
    where
      nothing_some : ◌≡◌ {A = Option Commissioner} none (some d) → ⊥
      nothing_some q = cc

  idle_step :
      (buffer kek : List ℕ) (l : JoinerList sha256 J) (c : Commissioner)
      → l.updated ≡ false
      → round_step sha256 J buffer kek testing l c ≡ some (testing, l, c)
  unfolding round_step
  idle_step buffer kek l c u = rw (u, round_step) refl

  -- What a state is like that comes after one at the test of an unmarked list.
  abbrev Unchanged :
      JoinerList sha256 J → Commissioner → RoundPc × JoinerList sha256 J × Commissioner → Type 0
  Unchanged l c x = (x.0 ≡ testing) × (x.1 ≡ l) × (last_set none x.2.sent ≡ last_set none c.sent)

  unchanged :
      {l : JoinerList sha256 J} {c : Commissioner} {pc : RoundPc} {l' : JoinerList sha256 J}
      {c' : Commissioner}
      → l.updated ≡ false
      → Rounds testing l c pc l' c'
      → Unchanged l c (pc, l', c')
  unchanged u start = (refl, refl, refl)
  unchanged {l = l} {c = c} u (steps {p = p} {l' = m} {c' = d} buffer kek r h) =
      let (t, e, s) = unchanged u r in
      let still = idle_step buffer kek m d (ap (λ (x : JoinerList sha256 J). x.updated) e ∙ u) in
      let same =
        some-inverse (sym still ∙ sym (ap (λ x. round_step sha256 J buffer kek x m d) t) ∙ h) in
      subst (Unchanged l c) same (refl, e, s)
  unchanged u (works {c' = d} ms r e n) =
      let (t, q, s) = unchanged u r in
      (
        t,
        q,
        ap (last_set none) e
            ∙ last_set-append none d.sent ms
            ∙ last_set-skip (last_set none d.sent) ms n
            ∙ s,
      )

  -- Let the list be marked, with a filter of 1 to 16 bytes, and the worker at its test. It makes three calls; then a request adds or
  -- replaces a joiner, and the worker makes its next call. However many calls follow while no request
  -- changes the list, the newest steering data that the border agent was sent stay those from before
  -- the request.
  pub lost_update :
      (buffer kek body eui : List ℕ) (before l0 changed l1 l' : JoinerList sha256 J)
      (c c0 c1 c' : Commissioner) (p0 p1 pc : RoundPc) (code : StatusCode)
      → length buffer ≡ 1500
      → IsFilter before.steering
      → before.updated ≡ true
      → round_steps buffer kek 3 testing before c ≡ some (p0, l0, c0)
      → edit sha256 J l0 body eui ≡ some (changed, code)
      → round_step sha256 J buffer kek p0 changed c0 ≡ some (p1, l1, c1)
      → Rounds p1 l1 c1 pc l' c'
      → Told c'.sent before.steering × (l'.steering ≡ changed.steering)
  unfolding round_step list_update_finished
  lost_update buffer kek body eui before l0 changed l1 l' c c0 c1 c' p0 p1 pc code size f u h3 he h1
        r =
      let (d, e, t) = announce_steering-Told sha256 J buffer kek before c size f in
      let same = some-inverse (sym (told_lem buffer kek before c d u e) ∙ h3) in
      let last : ◌≡◌ {A = Option (RoundPc × JoinerList sha256 J × Commissioner)}
          (some (testing, list_update_finished sha256 J changed, d)) (some (p1, l1, c1)) =
        ap
          (λ (x : RoundPc × JoinerList sha256 J × Commissioner).
            round_step sha256 J buffer kek x.0 changed x.2)
          same
        ∙ h1 in
      after (some-inverse last) t r
    where
      after :
          {d : Commissioner}
          → ◌≡◌ {A = RoundPc × JoinerList sha256 J × Commissioner}
              (testing, list_update_finished sha256 J changed, d)
              (p1, l1, c1)
          → Told d.sent before.steering
          → Rounds p1 l1 c1 pc l' c'
          → Told c'.sent before.steering × (l'.steering ≡ changed.steering)
      after {d} same (id, t) r =
          let back : Rounds testing (list_update_finished sha256 J changed) d pc l' c' =
            subst
              (λ (x : RoundPc × JoinerList sha256 J × Commissioner). Rounds x.0 x.1 x.2 pc l' c')
              (sym same) r in
          let (p, q, s) = unchanged refl back in
          ((id, s ∙ t), ap (λ (x : JoinerList sha256 J). x.steering) q)
