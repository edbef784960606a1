-- ===== src/EventEmitter/Histories.antt =====
-- event_emitter.cpp: what an event calls after any history of registrations.
use commissioner.Prelude.{
  ℕ, ◌≡◌, ◌⊎◌, inl, inr, refl, ap, sym, subst, ◌∙◌, Option, none, some, List, [], ◌∷◌, ◌++◌, ◌==◌,
  if◌then◌else◌, arith, Option-cases, Bool-cases, All,
}
use commissioner.EventEmitter.{
  Handler, same_handler, Events, no_events, insert, erase, contents, on, erase_first, off, emit,
}

pub data Operation : Type 0 where
  registered deregistered : ℕ → Handler → Operation

-- Every operation has a callback that is no null pointer.
abbrev pub HasCallback : Operation → Type 0
HasCallback (registered event h) = ¬ (h.callback ≡ 0)
HasCallback (deregistered event h) = ¬ (h.callback ≡ 0)

-- A history, its oldest operation last.
unfoldable pub run : List Operation → Option Events
run [] = some no_events
run (registered event h ∷ ops) = elim (run ops) [ none ↦ none | some events ↦ on events event h ]
run (deregistered event h ∷ ops) = elim (run ops) [ none ↦ none | some events ↦ off events event h ]

-- A list without the first handler that is equal to `h`.
abbrev pub drop_first : List Handler → Handler → List Handler
drop_first [] h = []
drop_first (x ∷ xs) h = if same_handler x h then xs else x ∷ drop_first xs h

-- The handlers that one event should call, read off the history alone.
abbrev pub expected : List Operation → ℕ → List Handler
expected [] e = []
expected (registered event h ∷ ops) e =
    if e == event then expected ops e ++ h ∷ [] else expected ops e
expected (deregistered event h ∷ ops) e =
    if e == event then drop_first (expected ops e) h else expected ops e

-- The map holds no empty list, and each event's handlers are `f`'s.
abbrev At : Option (List Handler) → List Handler → Type 0
At o xs = (contents o ≡ xs) × (¬ (o ≡ some []))

abbrev Holds : Events → (ℕ → List Handler) → Type 0
Holds events f = (e : ℕ) → At (events e) (f e)

erase_first_lem :
    (xs : List Handler) (h : Handler)
    → ((erase_first xs h ≡ none) × (drop_first xs h ≡ xs))
      ⊎ (erase_first xs h ≡ some (drop_first xs h))
unfolding erase_first
erase_first_lem [] h = inl (refl, refl)
erase_first_lem (x ∷ xs) h = ground (arith, erase_first_lem xs h)

-- The entry of one event is replaced.
changed-Holds :
    (events : Events) (f : ℕ → List Handler) (event : ℕ) (g : List Handler → List Handler)
    (o : Option (List Handler))
    → Holds events f
    → contents o ≡ g (f event)
    → ¬ (o ≡ some [])
    → Holds (λ e. if e == event then o else events e) (λ e. if e == event then g (f e) else f e)
changed-Holds events f event g o k c n e = elim (Bool-cases (e == event)) [
  | inl b ↦ let same : e ≡ event = ground (arith, b) in rw b (c ∙ ap (λ x. g (f x)) (sym same), n)
  | inr b ↦ rw b (k e)
]

-- Or it stays, where the change has no effect on its handlers.
same-Holds :
    (events : Events) (f : ℕ → List Handler) (event : ℕ) (g : List Handler → List Handler)
    → Holds events f
    → f event ≡ g (f event)
    → Holds events (λ e. if e == event then g (f e) else f e)
same-Holds events f event g k c e = elim (Bool-cases (e == event)) [
  | inl b ↦
      let same : e ≡ event = ground (arith, b) in
      rw b (
        subst (λ x. (contents (events x) ≡ g (f x)) × (¬ (events x ≡ some []))) (sym same)
          ((k event).0 ∙ c, (k event).1))
  | inr b ↦ rw b (k e)
]

snoc-nonempty : (xs : List Handler) (h : Handler) → ¬ (some (xs ++ h ∷ []) ≡ some [])
snoc-nonempty [] h e = ground (arith, e)
snoc-nonempty (x ∷ xs) h e = ground (arith, e)

on-Holds :
    (events : Events) (f : ℕ → List Handler) (event : ℕ) (h : Handler)
    → Holds events f
    → ¬ (h.callback ≡ 0)
    → (d : Events) × (on events event h ≡ some d)
      × Holds d (λ e. if e == event then f e ++ h ∷ [] else f e)
unfolding on
on-Holds events f event h k c = (
  insert event (contents (events event) ++ h ∷ []) events,
  ground (arith, c),
  changed-Holds events f event (λ xs. xs ++ h ∷ []) (some (contents (events event) ++ h ∷ [])) k
      (ap (λ xs. xs ++ h ∷ []) (k event).0) (snoc-nonempty (contents (events event)) h),
)

-- `Off` on an event that has handlers.
erase_first-Holds :
    (events : Events) (f : ℕ → List Handler) (event : ℕ) (h : Handler) (o : Option (List Handler))
    → Holds events f
    → ((o ≡ none) × (drop_first (f event) h ≡ f event)) ⊎ (o ≡ some (drop_first (f event) h))
    → (d : Events) × (elim o [
      | none ↦ some events
      | some [] ↦ some (erase event events)
      | some (x ∷ left) ↦ some (insert event (x ∷ left) events)
    ]
        ≡ some d)
      × Holds d (λ e. if e == event then drop_first (f e) h else f e)
erase_first-Holds events f event h none k (inl (e, s)) =
    (events, refl, same-Holds events f event (λ xs. drop_first xs h) k (sym s))
erase_first-Holds events f event h none k (inr e) = absurd (ground (arith, e))
erase_first-Holds events f event h (some xs) k (inl (e, s)) = absurd (ground (arith, e))
erase_first-Holds events f event h (some []) k (inr e) = (
  erase event events,
  refl,
  changed-Holds events f event (λ xs. drop_first xs h) none k (ap contents e)
      (λ n. ground (arith, n)),
)
erase_first-Holds events f event h (some (x ∷ xs)) k (inr e) = (
  insert event (x ∷ xs) events,
  refl,
  changed-Holds events f event (λ xs. drop_first xs h) (some (x ∷ xs)) k (ap contents e)
      (λ n. ground (arith, n)),
)

off-Holds :
    (events : Events) (f : ℕ → List Handler) (event : ℕ) (h : Handler)
    → Holds events f
    → ¬ (h.callback ≡ 0)
    → (d : Events) × (off events event h ≡ some d)
      × Holds d (λ e. if e == event then drop_first (f e) h else f e)
unfolding off
off-Holds events f event h k c = elim (Option-cases (events event)) [
  | inl n ↦
      let empty : f event ≡ [] = sym (k event).0 ∙ ap contents n in
      (
        events,
        ground (arith, n, c),
        same-Holds events f event (λ xs. drop_first xs h) k (rw empty refl),
      )
  | inr (handlers, n) ↦
      let whole : handlers ≡ f event = sym (ap contents n) ∙ (k event).0 in
      let (d, e, r) = erase_first-Holds events f event h (erase_first handlers h) k (
        subst
          (λ xs.
            ((erase_first handlers h ≡ none) × (drop_first xs h ≡ xs))
            ⊎ (erase_first handlers h ≡ some (drop_first xs h)))
          whole (erase_first_lem handlers h)) in
      (d, rw n (ground (arith, c, e)), r)
]

run-Holds :
    (ops : List Operation)
    → All HasCallback ops
    → (events : Events) × (run ops ≡ some events) × Holds events (expected ops)
unfolding run
run-Holds [] c = (no_events, refl, λ e. (refl, λ n. ground (arith, n)))
run-Holds (registered event h ∷ ops) (c, cs) =
    let (events, r, k) = run-Holds ops cs in
    let (d, r', k') = on-Holds events (expected ops) event h k c in (d, rw r r', k')
run-Holds (deregistered event h ∷ ops) (c, cs) =
    let (events, r, k) = run-Holds ops cs in
    let (d, r', k') = off-Holds events (expected ops) event h k c in (d, rw r r', k')

emit-At : (events : Events) (e : ℕ) (xs : List Handler) → At (events e) xs → emit events e ≡ some xs
unfolding emit
emit-At events e xs (c, n) = elim (Option-cases (events e)) [
  | inl h ↦ rw (h, emit) (ap some (sym (ap contents h) ∙ c))
  | inr ([], h) ↦ absurd (n h)
  | inr (x ∷ ys, h) ↦ rw (h, emit) (ap some (sym (ap contents h) ∙ c))
]

-- After any history of registrations and removals with callbacks that are no null pointers, no
-- assertion has failed, and an event calls exactly the handlers that the history leaves it: those
-- registered for it, in that order, less for each removal the first one that is equal.
pub run-emit :
    (ops : List Operation)
    → All HasCallback ops
    → (events : Events) × (run ops ≡ some events)
      × ((e : ℕ) → emit events e ≡ some (expected ops e))
run-emit ops cs =
    let (events, r, k) = run-Holds ops cs in
    (events, r, λ e. emit-At events e (expected ops e) (k e))
