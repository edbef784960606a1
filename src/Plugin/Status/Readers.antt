-- ===== src/Plugin/Status/Readers.antt =====
-- comm_rest_api.hpp: `ReturnStatus` under threads, a step for each access to shared memory.
use commissioner.Prelude.{
  ℕ, ◌≡◌, inl, inr, refl, ap, ◌∙◌, Bool, true, false, none, some, arith, ◌==◌, if◌then◌else◌,
  Bool-cases,
}
use commissioner.Plugin.Status.{Status}

module _ {ℓ} (A : Type ℓ) where
  -- Where a thread stands: `checked` is behind the test of `IsReady`, `taking` before `future->get()`,
  -- `storing` behind the lock of `Set`.
  pub data Pc : Type ℓ where
    idle checked taking : Pc
    setting storing : A → Pc

  pub record System : Type ℓ where
    pub status : Status A
    pub locked : Bool
    pub pc : ℕ → Pc

  abbrev pub update : (ℕ → Pc) → ℕ → Pc → ℕ → Pc
  update pc i p j = if j == i then p else pc j

  -- One access of thread `i`. A `get` of a future whose value is not set waits, and so does `lock`.
  pub data Step (s : System) : System → Type ℓ where
    sees_value :
        (i : ℕ) (v : A)
        → s.pc i ≡ idle
        → s.status.pending ≡ some v
        → Step s (record s { pc = update s.pc i checked })
    sees_none : (i : ℕ) → s.pc i ≡ idle → s.status.pending ≡ none → Step s s
    locks_get :
        (i : ℕ)
        → s.pc i ≡ checked
        → s.locked ≡ false
        → Step s (record s { locked = true; pc = update s.pc i taking })
    takes :
        (i : ℕ) (v : A)
        → s.pc i ≡ taking
        → s.status.pending ≡ some v
        → Step s (record {
          status = record s.status { pending = none };
          locked = false;
          pc = update s.pc i idle;
        })
    calls_set :
        (i : ℕ) (v : A) → s.pc i ≡ idle → Step s (record s { pc = update s.pc i (setting v) })
    locks_set :
        (i : ℕ) (v : A)
        → s.pc i ≡ setting v
        → s.locked ≡ false
        → Step s (record s { locked = true; pc = update s.pc i (storing v) })
    stores :
        (i : ℕ) (v : A)
        → s.pc i ≡ storing v
        → Step s (record {
          status = record { pending = some v; old_status = v };
          locked = false;
          pc = update s.pc i idle;
        })

  pub data Reach (s : System) : System → Type ℓ where
    here : Reach s s
    later : {t u : System} → Reach s t → Step t u → Reach s u

  -- Inside the lock.
  abbrev pub critical : Pc → Bool
  critical taking = true
  critical (storing v) = true
  critical _ = false

  -- Thread `i` waits for a value, holds the lock, and no other thread is inside.
  abbrev Blocked : ℕ → System → Type ℓ
  Blocked i s =
      (s.pc i ≡ taking)
      × (s.status.pending ≡ none)
      × (s.locked ≡ true)
      × ((j : ℕ) → (j == i) ≡ false → critical (s.pc j) ≡ false)

  update-same : (pc : ℕ → Pc) (i : ℕ) (p : Pc) → update pc i p i ≡ p
  update-same pc i p = ground arith

  update-ne : (pc : ℕ → Pc) (i j : ℕ) (p : Pc) → (j == i) ≡ false → update pc i p j ≡ pc j
  update-ne pc i j p h = rw h refl

  -- The state of a thread that is no other one.
  same_pc : (pc : ℕ → Pc) (i j : ℕ) → (j == i) ≡ true → pc j ≡ pc i
  same_pc pc i j h = ap pc (ground (arith, h))

  critical-update :
      (pc : ℕ → Pc) (i : ℕ) (p : Pc) (j : ℕ)
      → critical p ≡ false
      → critical (pc j) ≡ false
      → critical (update pc i p j) ≡ false
  critical-update pc i p j h k = elim (Bool-cases (j == i)) [ inl e ↦ rw e h | inr e ↦ rw e k ]

  Step-Blocked :
      (i : ℕ) {s t : System} → Blocked i s → Step s t → Blocked i t × (t.status ≡ s.status)
  Step-Blocked i b (sees_value j v e p) = absurd (ground (arith, b, p))
  Step-Blocked i b (sees_none j e p) = (b, refl)
  Step-Blocked i b (locks_get j e l) = absurd (ground (arith, b, l))
  Step-Blocked i b (takes j v e p) = absurd (ground (arith, b, p))
  Step-Blocked i {s} (a, b, c, d) (calls_set j v e) = elim (Bool-cases (j == i)) [
    | inl h ↦ absurd (ground (arith, a, e, same_pc s.pc i j h))
    | inr h ↦ (
      (
        update-ne s.pc j i (setting v) (ground (arith, h)) ∙ a,
        b,
        c,
        λ k n. critical-update s.pc j (setting v) k refl (d k n),
      ),
      refl,
    )
  ]
  Step-Blocked i b (locks_set j v e l) = absurd (ground (arith, b, l))
  Step-Blocked i {s} (a, b, c, d) (stores j v e) = elim (Bool-cases (j == i)) [
    | inl h ↦ absurd (ground (arith, a, e, same_pc s.pc i j h))
    | inr h ↦ absurd (ground (arith, d j h, e))
  ]

  Reach-Blocked :
      (i : ℕ) {s t : System} → Blocked i s → Reach s t → Blocked i t × (t.status ≡ s.status)
  Reach-Blocked i b here = (b, refl)
  Reach-Blocked i b (later r st) =
      let (b', e) = Reach-Blocked i b r in let (b'', e') = Step-Blocked i b' st in (b'', e' ∙ e)

  -- Let a value be set, two threads be about to call `Get`, and no thread be inside the lock. Then
  -- the program can reach a state from which one of the two waits in the lock for ever, and no later
  -- call of `Set` changes the status.
  pub overlapping_gets :
      (s : System) (i j : ℕ) (v : A)
      → (j == i) ≡ false
      → s.pc i ≡ idle
      → s.pc j ≡ idle
      → s.status.pending ≡ some v
      → s.locked ≡ false
      → ((k : ℕ) → critical (s.pc k) ≡ false)
      → (t : System) × Reach s t
        × ((u : System) → Reach t u → (u.pc j ≡ taking) × (u.locked ≡ true) × (u.status ≡ t.status))
  overlapping_gets s i j v n pi pj p l q =
      let s1 : System = record s { pc = update s.pc i checked } in
      let s2 : System = record s { pc = update s1.pc j checked } in
      let s3 : System = record s2 { locked = true; pc = update s2.pc i taking } in
      let s4 : System = record {
        status = record s.status { pending = none };
        locked = false;
        pc = update s3.pc i idle;
      } in
      let s5 : System = record s4 { locked = true; pc = update s4.pc j taking } in
      let n' : (i == j) ≡ false = ground (arith, n) in
      let others : (k : ℕ) → (k == j) ≡ false → critical (s5.pc k) ≡ false =
        λ k m. elim (Bool-cases (k == i)) [ inl h ↦ rw (m, h) refl | inr h ↦ rw (m, h) (q k) ] in
      (
        s5,
        later
            (later
              (later
                (later (later here (sees_value i v pi p))
                  (sees_value j v (update-ne s.pc i j checked n ∙ pj) p))
                (locks_get i (update-ne s1.pc j i checked n' ∙ update-same s.pc i checked) l))
              (takes i v (update-same s2.pc i taking) p))
            (locks_get j
              (update-ne s3.pc i j idle n
                ∙ update-ne s2.pc i j taking n
                ∙ update-same s1.pc j checked)
              refl),
        λ u r.
            let ((at, none_left, locked', alone), e) =
              Reach-Blocked j {s = s5} (update-same s4.pc j taking, refl, refl, others) r in
            (at, locked', e),
      )
