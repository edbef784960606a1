-- ===== src/Plugin/Threads/Alive.antt =====
-- comm.cpp: the commissioner that the worker uses is alive.
use commissioner.Prelude.{
  ℕ, ◌≡◌, ◌<◌, refl, ap, sym, ◌∙◌, subst, Bool, true, false, Option, none, some, ◌==◌,
  if◌then◌else◌, arith, Bool-cases, inl, inr,
}
use commissioner.Plugin.Threads.{
  WorkerPc, absent, done, ManagerPc, Manager, Shared, Move, blocked, undefined, moved, is_over,
  set_alive, release, goto, join_worker, manager_step, worker_next, worker_step, uses_commissioner,
  Step, Reach, here, next, new_manager, test_changed, signal_old, join_old, create_commissioner,
  set_pointer, start_thread, report_petitioning, wait_petition, signal_late, join_late,
  report_timeout, clear_changed, test_stop, report_disabled, signal_last, join_last,
  free_commissioner, ended, manages, works, changes, stops,
}

-- Where a step of a manager leads, if it moves.
pub data Leads (Q : Manager → Shared → Type 0) : Move → Type 0 where
  blocks : Leads Q blocked
  fails : Leads Q undefined
  leads : {m : Manager} {s : Shared} → Q m s → Leads Q (moved m s)

pub led : {Q : Manager → Shared → Type 0} {m : Manager} {s : Shared} → Leads Q (moved m s) → Q m s
led (leads q) = q

-- What holds at a place of the manager, of its commissioner and its worker.
abbrev pub AtPc : ManagerPc → Option ℕ → WorkerPc → Option ℕ → Type 0
AtPc create_commissioner comm worker pointer = is_over worker ≡ true
AtPc set_pointer comm worker pointer = (is_over worker ≡ true) × (i : ℕ) × (comm ≡ some i)
AtPc start_thread comm worker pointer =
    (is_over worker ≡ true) × (i : ℕ) × (comm ≡ some i) × (pointer ≡ some i)
AtPc free_commissioner comm worker pointer = is_over worker ≡ true
AtPc ended comm worker pointer = (is_over worker ≡ true) × (comm ≡ none)
AtPc _ comm worker pointer = Unit

pub record IsSafe (m : Manager) (s : Shared) : Type 0 where
  pub owned : (i : ℕ) → m.comm ≡ some i → s.alive i ≡ true
  pub only : (i : ℕ) → s.alive i ≡ true → m.comm ≡ some i
  pub fresh : (i : ℕ) → m.comm ≡ some i → i < s.next
  pub running : is_over m.worker ≡ false → (i : ℕ) × (m.comm ≡ some i) × (s.pointer ≡ some i)
  pub at_pc : AtPc m.pc m.comm m.worker s.pointer

over : {b : Bool} → b ≡ true → b ≡ false → ⊥
over h k = cc

some-inverse : {x y : ℕ} → some x ≡ some y → x ≡ y
some-inverse h = cc

unnamed : {x : ℕ} → none ≡ some x → ⊥
unnamed h = cc

released :
    (comm : Option ℕ) (alive : ℕ → Bool)
    → ((i : ℕ) → alive i ≡ true → comm ≡ some i)
    → (i : ℕ) → release comm alive i ≡ false
unfolding release
released none alive only i = elim (Bool-cases (alive i)) [
  | inl e ↦ absurd (unnamed (only i e))
  | inr e ↦ e
]
released (some k) alive only i = elim (Bool-cases (i == k)) [
  | inl e ↦ rw e refl
  | inr e ↦ elim (Bool-cases (alive i)) [
    | inl a ↦ let h = some-inverse (only i a) in absurd (ground (arith, e, h))
    | inr a ↦ rw (e, a) refl
  ]
]

-- After `create_commissioner` only the new object is alive.
created :
    (comm : Option ℕ) (alive : ℕ → Bool) (n : ℕ)
    → ((i : ℕ) → alive i ≡ true → comm ≡ some i)
    → ((i : ℕ) → comm ≡ some i → i < n)
    → (i : ℕ) → release comm (set_alive alive n true) i ≡ (i == n)
unfolding release
created none alive n only fresh i = elim (Bool-cases (i == n)) [
  | inl e ↦ rw e refl
  | inr e ↦ elim (Bool-cases (alive i)) [
    | inl a ↦ absurd (unnamed (only i a))
    | inr a ↦ rw (e, a) refl
  ]
]
created (some k) alive n only fresh i =
    let lt = fresh k refl in
    elim (Bool-cases (alive i)) [
      | inl a ↦ let h = some-inverse (only i a) in ground (arith, lt, h, a)
      | inr a ↦ ground (arith, lt, a)
    ]

goes :
    (m : Manager) (s s' : Shared) (pc : ManagerPc) (ws lk : Bool)
    → IsSafe m s
    → s'.alive ≡ s.alive
    → s'.next ≡ s.next
    → s'.pointer ≡ s.pointer
    → AtPc pc m.comm m.worker s'.pointer
    → IsSafe (record m { pc = pc; worker_stop = ws; locked = lk }) s'
goes m s s' pc ws lk v ea en ep a = record {
  owned = λ i h. rw ea (v.owned i h);
  only = λ i h. v.only i (rw ea at h);
  fresh = λ i h. rw en (v.fresh i h);
  running = λ h. let (i, c, p) = v.running h in (i, c, ep ∙ p);
  at_pc = a;
}

joins :
    (m : Manager) (s : Shared) (pc : ManagerPc) (b : Bool)
    → is_over m.worker ≡ b
    → IsSafe m s
    → AtPc pc m.comm absent s.pointer
    → Leads IsSafe (join_worker m pc s)
unfolding join_worker
joins m s pc false e v a = rw (e, join_worker) blocks
joins m s pc true e v a =
    rw (e, join_worker)
      (leads (record {
        owned = v.owned;
        only = v.only;
        fresh = v.fresh;
        running = λ h. absurd (over refl h);
        at_pc = a;
      }))

onward :
    (b : Bool) (p q : ManagerPc) (comm : Option ℕ) (worker : WorkerPc) (pointer : Option ℕ)
    → AtPc p comm worker pointer
    → AtPc q comm worker pointer
    → AtPc (if b then p else q) comm worker pointer
onward true p q c w o x y = x
onward false p q c w o x y = y

manager_step-IsSafe :
    (choice : Bool) (pc : ManagerPc) (m : Manager) (s : Shared)
    → IsSafe (record m { pc = pc }) s
    → Leads IsSafe (manager_step choice (record m { pc = pc }) s)
unfolding manager_step goto
manager_step-IsSafe choice test_changed m s v = leads (
    goes _ s s _ m.worker_stop m.locked v refl refl refl
      (onward s.changed signal_old test_stop _ _ _ tt tt))
manager_step-IsSafe choice signal_old m s v =
    leads (goes _ s s join_old true m.locked v refl refl refl tt)
manager_step-IsSafe choice join_old m s v = joins _ s create_commissioner _ refl v refl
manager_step-IsSafe choice create_commissioner m s v = leads (record {
  owned = λ i h. created m.comm s.alive s.next v.only v.fresh i ∙ ground (arith, some-inverse h);
  only = λ i h.
      let e : (i == s.next) ≡ true = sym (created m.comm s.alive s.next v.only v.fresh i) ∙ h in
      ap some (ground (arith, e));
  fresh = λ i h. omega (arith, some-inverse h);
  running = λ h. absurd (over v.at_pc h);
  at_pc = (v.at_pc, s.next, refl);
})
manager_step-IsSafe choice set_pointer m s v = leads (record {
  owned = v.owned;
  only = v.only;
  fresh = v.fresh;
  running = λ h. absurd (over v.at_pc.0 h);
  at_pc = let (o, i, c) = v.at_pc in (o, i, c, c);
})
manager_step-IsSafe choice start_thread m s v = leads (record {
  owned = v.owned;
  only = v.only;
  fresh = v.fresh;
  running = λ h. let (o, i, c, p) = v.at_pc in (i, c, p);
  at_pc = tt;
})
manager_step-IsSafe choice report_petitioning m s v =
    leads (goes _ s _ wait_petition m.worker_stop m.locked v refl refl refl tt)
manager_step-IsSafe choice wait_petition m s v = waits m.locked refl
  where
    waits :
        (b : Bool)
        → m.locked ≡ b
        → Leads IsSafe (manager_step choice (record m { pc = wait_petition }) s)
    waits false e = rw (e, manager_step) fails
    waits true e =
        rw (e, manager_step)
          (leads (
            goes _ s s _ m.worker_stop false v refl refl refl
              (onward choice clear_changed signal_late _ _ _ tt tt)))
manager_step-IsSafe choice signal_late m s v =
    leads (goes _ s s join_late true m.locked v refl refl refl tt)
manager_step-IsSafe choice join_late m s v = joins _ s report_timeout _ refl v tt
manager_step-IsSafe choice report_timeout m s v =
    leads (goes _ s _ clear_changed m.worker_stop m.locked v refl refl refl tt)
manager_step-IsSafe choice clear_changed m s v =
    leads (goes _ s _ test_stop m.worker_stop m.locked v refl refl refl tt)
manager_step-IsSafe choice test_stop m s v = leads (
    goes _ s s _ m.worker_stop m.locked v refl refl refl
      (onward m.stop report_disabled test_changed _ _ _ tt tt))
manager_step-IsSafe choice report_disabled m s v =
    leads (goes _ s _ signal_last m.worker_stop m.locked v refl refl refl tt)
manager_step-IsSafe choice signal_last m s v =
    leads (goes _ s s join_last true m.locked v refl refl refl tt)
manager_step-IsSafe choice join_last m s v = joins _ s free_commissioner _ refl v refl
manager_step-IsSafe choice free_commissioner m s v = leads (record {
  owned = λ i h. absurd (unnamed h);
  only = λ i h. absurd (over h (released m.comm s.alive v.only i));
  fresh = λ i h. absurd (unnamed h);
  running = λ h. absurd (over v.at_pc h);
  at_pc = (v.at_pc, refl);
})
manager_step-IsSafe choice ended m s v = leads v

over_next : (stop choice : Bool) (w : WorkerPc) → is_over w ≡ true → worker_next stop choice w ≡ w
unfolding worker_next
over_next stop choice absent h = refl
over_next stop choice done h = refl
over_next stop choice _ h = absurd (over h refl)

-- A worker that is over keeps all that is known of its manager's place.
keeps_at :
    (pc : ManagerPc) (comm : Option ℕ) (pointer : Option ℕ) (w w' : WorkerPc)
    → (is_over w ≡ true → w' ≡ w)
    → AtPc pc comm w pointer
    → AtPc pc comm w' pointer
keeps_at create_commissioner comm pointer w w' k a = ap is_over (k a) ∙ a
keeps_at set_pointer comm pointer w w' k (o, i, c) = (ap is_over (k o) ∙ o, i, c)
keeps_at start_thread comm pointer w w' k (o, i, c, p) = (ap is_over (k o) ∙ o, i, c, p)
keeps_at free_commissioner comm pointer w w' k a = ap is_over (k a) ∙ a
keeps_at ended comm pointer w w' k (o, c) = (ap is_over (k o) ∙ o, c)
keeps_at _ comm pointer w w' k a = tt

worker_step-IsSafe :
    (choice : Bool) (m : Manager) (s : Shared)
    → IsSafe m s
    → IsSafe (worker_step choice m s).0 (worker_step choice m s).1
unfolding worker_step
worker_step-IsSafe choice m s v = record {
  owned = v.owned;
  only = v.only;
  fresh = v.fresh;
  running = λ h. elim (Bool-cases (is_over m.worker)) [
    | inl o ↦ absurd (over (ap is_over (over_next m.worker_stop choice m.worker o) ∙ o) h)
    | inr r ↦ v.running r
  ];
  at_pc =
      keeps_at m.pc m.comm s.pointer m.worker _ (over_next m.worker_stop choice m.worker) v.at_pc;
}

Step-IsSafe :
    {m : Manager} {s : Shared} {m' : Manager} {s' : Shared}
    → Step m s m' s'
    → IsSafe m s
    → IsSafe m' s'
Step-IsSafe {m = m} {s = s} (manages choice h) v =
    led (subst (Leads IsSafe) h (manager_step-IsSafe choice m.pc m s v))
Step-IsSafe {m = m} {s = s} (works choice) v = worker_step-IsSafe choice m s v
Step-IsSafe changes v = record {
  owned = v.owned;
  only = v.only;
  fresh = v.fresh;
  running = v.running;
  at_pc = v.at_pc;
}
Step-IsSafe stops v = record {
  owned = v.owned;
  only = v.only;
  fresh = v.fresh;
  running = v.running;
  at_pc = v.at_pc;
}

Reach-IsSafe :
    {m : Manager} {s : Shared} {m' : Manager} {s' : Shared}
    → IsSafe m s
    → Reach m s m' s'
    → IsSafe m' s'
Reach-IsSafe v here = v
Reach-IsSafe v (next r st) = Step-IsSafe st (Reach-IsSafe v r)

new_manager-IsSafe : (s : Shared) → ((i : ℕ) → s.alive i ≡ false) → IsSafe new_manager s
unfolding new_manager
new_manager-IsSafe s h = record {
  owned = λ i c. absurd (unnamed c);
  only = λ i a. absurd (over a (h i));
  fresh = λ i c. absurd (unnamed c);
  running = λ r. absurd (over refl r);
  at_pc = tt;
}

uses-running : (w : WorkerPc) → uses_commissioner w ≡ true → is_over w ≡ false
uses-running absent h = absurd (over h refl)
uses-running done h = absurd (over h refl)
uses-running _ h = refl

-- While a plugin has one manager thread, whatever the requests, the network and the clock do: when
-- the worker is about to call the commissioner through the plugin's pointer, that object is alive, and
-- it is the only one.
pub Reach-uses :
    {m : Manager} {s s' : Shared}
    → ((i : ℕ) → s.alive i ≡ false)
    → Reach new_manager s m s'
    → uses_commissioner m.worker ≡ true
    → (i : ℕ) × (s'.pointer ≡ some i) × (s'.alive i ≡ true) × ((j : ℕ) → s'.alive j ≡ true → j ≡ i)
Reach-uses {m = m} {s = s} h r u =
    let v = Reach-IsSafe (new_manager-IsSafe s h) r in
    let (i, c, p) = v.running (uses-running m.worker u) in
    (i, p, v.owned i c, λ j a. some-inverse (sym (v.only j a) ∙ c))

-- When the one manager of a plugin has ended, its worker is over and no commissioner is left.
pub Reach-ended :
    {m : Manager} {s s' : Shared}
    → ((i : ℕ) → s.alive i ≡ false)
    → Reach new_manager s m s'
    → m.pc ≡ ended
    → (is_over m.worker ≡ true) × ((i : ℕ) → s'.alive i ≡ false)
Reach-ended {m = m} {s = s} {s' = s'} h r e =
    let v = Reach-IsSafe (new_manager-IsSafe s h) r in
    let (o, c) = subst (λ pc. AtPc pc m.comm m.worker s'.pointer) e v.at_pc in
    (
      o,
      λ i. elim (Bool-cases (s'.alive i)) [
        | inl a ↦ absurd (unnamed (sym c ∙ v.only i a))
        | inr a ↦ a
      ],
    )
