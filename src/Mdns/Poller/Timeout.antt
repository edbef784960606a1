-- ===== src/Mdns/Poller/Timeout.antt =====
-- mdns_avahi.cpp: how long `UpdateFdSet` lets `select` wait.
use commissioner.Prelude.{
  ℕ, ◌+◌, ◌-◌, ◌*◌, ◌/◌, ◌^◌, ◌≡◌, ◌≤◌, ◌<◌, refl, sym, subst, true, false, List, [], ◌∷◌, arith,
  ◌==◌, leb, All, Bool-cases, ◌⊎◌, inl, inr,
}
use commissioner.Mdns.Poller.{AvahiTimeout, Timeval, distance, has_come, shorten, update_timeout}

abbrev pub milliseconds : Timeval → ℕ
milliseconds tv = tv.tv_sec * 1000 + tv.tv_usec / 1000

abbrev pub AtMost : Timeval → Timeval → Type 0
AtMost a b = (a.tv_sec ≤ b.tv_sec) × (a.tv_usec ≤ b.tv_usec)

-- A wait of which the seconds fit an `int` with a sign.
abbrev pub IsShort : ℕ → Type 0
IsShort d = d / 1000 < 2 ^ 31

shorten-AtMost :
    (d : ℕ) (tv : Timeval)
    → IsShort d
    → tv.tv_sec < 2 ^ 63
    → AtMost (shorten d tv) tv × ((shorten d tv).tv_sec ≤ d / 1000)
unfolding shorten
shorten-AtMost d tv h k = ground (arith, h, k)

abbrev no_wait : Timeval
no_wait = record { tv_sec = 0; tv_usec = 0 }

update_skip :
    (now : ℕ) (t : AvahiTimeout) (timers : List AvahiTimeout) (tv : Timeval)
    → (t.timeout == 0) ≡ true
    → update_timeout now (t ∷ timers) tv ≡ update_timeout now timers tv
unfolding update_timeout
update_skip now t timers tv z = rw (z, update_timeout) refl

update_due :
    (now : ℕ) (t : AvahiTimeout) (timers : List AvahiTimeout) (tv : Timeval)
    → (t.timeout == 0) ≡ false
    → has_come t.timeout now ≡ true
    → update_timeout now (t ∷ timers) tv ≡ no_wait
unfolding update_timeout
update_due now t timers tv z h = rw (z, h, update_timeout) refl

update_later :
    (now : ℕ) (t : AvahiTimeout) (timers : List AvahiTimeout) (tv : Timeval)
    → (t.timeout == 0) ≡ false
    → has_come t.timeout now ≡ false
    → update_timeout now (t ∷ timers) tv
      ≡ update_timeout now timers (shorten (distance t.timeout now) tv)
unfolding update_timeout
update_later now t timers tv z h = rw (z, h, update_timeout) refl

-- The timers that are to come are less than 2 ^ 31 seconds away.
abbrev pub InRange : ℕ → AvahiTimeout → Type 0
InRange now t = (t.timeout < 2 ^ 63) × (t.timeout < now + 2 ^ 31 * 1000)

distance_lem :
    (timeout now : ℕ) → timeout < 2 ^ 63 → now < timeout → distance timeout now ≡ timeout - now
distance_lem timeout now h k = omega (arith, h, k)

has_come_lem :
    (timeout now : ℕ)
    → timeout < 2 ^ 63
    → now < 2 ^ 63
    → timeout ≤ now
    → has_come timeout now ≡ true
has_come_lem timeout now h k l = ground (arith, h, k, l)

has_come_later : (timeout now : ℕ) → timeout < 2 ^ 63 → now < timeout → has_come timeout now ≡ false
has_come_later timeout now h k = ground (arith, h, k)

le-or-lt : (m n : ℕ) → (m ≤ n) ⊎ (n < m)
le-or-lt m n = elim (Bool-cases (leb m n)) [
  | inl e ↦ inl (ground (arith, e))
  | inr e ↦ inr (ground (arith, e))
]

update_timeout-AtMost :
    (now : ℕ) (timers : List AvahiTimeout) (tv : Timeval)
    → now < 2 ^ 63
    → tv.tv_sec < 2 ^ 63
    → All (InRange now) timers
    → AtMost (update_timeout now timers tv) tv
unfolding update_timeout
update_timeout-AtMost now [] tv n u v = ground arith
update_timeout-AtMost now (t ∷ timers) tv n u ((w, x), v) = elim (Bool-cases (t.timeout == 0)) [
  | inl z ↦
      subst (λ r. AtMost r tv) (sym (update_skip now t timers tv z))
        (update_timeout-AtMost now timers tv n u v)
  | inr z ↦ elim (le-or-lt t.timeout now) [
    | inl h ↦
        subst (λ r. AtMost r tv)
          (sym (update_due now t timers tv z (has_come_lem t.timeout now w n h)))
          (omega arith, omega arith)
    | inr h ↦
        let d = distance_lem t.timeout now w h in
        let (c, e) = shorten-AtMost (distance t.timeout now) tv (omega (arith, d, h, x)) u in
        let rest =
          update_timeout-AtMost now timers (shorten (distance t.timeout now) tv) n
            (omega (arith, c, u)) v in
        subst (λ r. AtMost r tv)
          (sym (update_later now t timers tv z (has_come_later t.timeout now w h)))
          (omega (arith, rest, c), omega (arith, rest, c))
  ]
]

-- What a wait must do for one timer: end at once when the timer is due, and less than a second after
-- it is due else.
abbrev pub Serves : ℕ → Timeval → AvahiTimeout → Type 0
Serves now tv t =
    (t.timeout ≡ 0)
    ⊎ (((t.timeout ≤ now) × (tv.tv_sec ≡ 0) × (tv.tv_usec ≡ 0))
        ⊎ ((now < t.timeout) × (milliseconds tv < t.timeout - now + 1000)))

no_wait-Serves : (now : ℕ) (t : AvahiTimeout) → Serves now no_wait t
no_wait-Serves now t = elim (le-or-lt t.timeout now) [
  | inl h ↦ inr (inl (h, refl, refl))
  | inr h ↦ inr (inr (h, omega arith))
]

no_wait-All : (now : ℕ) (timers : List AvahiTimeout) → All (Serves now no_wait) timers
no_wait-All now [] = tt
no_wait-All now (t ∷ timers) = (no_wait-Serves now t, no_wait-All now timers)

-- A wait that is at most the shortened one serves the timer it was shortened for.
shorten-Serves :
    (now : ℕ) (t : AvahiTimeout) (tv r : Timeval)
    → InRange now t
    → now < t.timeout
    → tv.tv_sec < 2 ^ 63
    → tv.tv_usec < 1000000
    → AtMost r (shorten (distance t.timeout now) tv)
    → milliseconds r < t.timeout - now + 1000
shorten-Serves now t tv r (h, x) k w u a =
    let e = distance_lem t.timeout now h k in
    let (c, d) = shorten-AtMost (distance t.timeout now) tv (omega (arith, e, k, x)) w in
    omega arith

serves :
    (now : ℕ) (timers : List AvahiTimeout) (tv : Timeval)
    → now < 2 ^ 63
    → tv.tv_sec < 2 ^ 63
    → tv.tv_usec < 1000000
    → All (InRange now) timers
    → All (Serves now (update_timeout now timers tv)) timers
serves now [] tv n s u v = tt
serves now (t ∷ timers) tv n s u ((w, x), v) = elim (Bool-cases (t.timeout == 0)) [
  | inl z ↦
      subst served (sym (update_skip now t timers tv z))
        (inl (ground (arith, z)), serves now timers tv n s u v)
  | inr z ↦ elim (le-or-lt t.timeout now) [
    | inl h ↦
        subst served (sym (update_due now t timers tv z (has_come_lem t.timeout now w n h)))
          (no_wait-All now (t ∷ timers))
    | inr h ↦
        let tv' = shorten (distance t.timeout now) tv in
        let d = distance_lem t.timeout now w h in
        let (c, e) = shorten-AtMost (distance t.timeout now) tv (omega (arith, d, h, x)) s in
        let later : tv'.tv_sec < 2 ^ 63 = omega (arith, c, s) in
        subst served (sym (update_later now t timers tv z (has_come_later t.timeout now w h))) (
          inr (
              inr (
                h,
                shorten-Serves now t tv (update_timeout now timers tv') (w, x) h s u
                    (update_timeout-AtMost now timers tv' n later v),
              )),
          serves now timers tv' n later (omega (arith, u, c)) v,
        )
  ]
]
  where
    served : Timeval → Type 0
    served r = All (Serves now r) (t ∷ timers)

-- With a clock and timers below 2 ^ 63, timers that are less than 2 ^ 31 seconds away, and a valid time
-- to begin with, the time that the poller hands to `select` is no longer than that to begin with; for each timer that runs it is zero if the
-- timer is due, and else ends less than a second after the timer is due.
pub update_timeout-Serves :
    (now : ℕ) (timers : List AvahiTimeout) (tv : Timeval)
    → now < 2 ^ 63
    → tv.tv_sec < 2 ^ 63
    → tv.tv_usec < 1000000
    → All (InRange now) timers
    → AtMost (update_timeout now timers tv) tv
      × All (Serves now (update_timeout now timers tv)) timers
update_timeout-Serves now timers tv n s u v =
    (update_timeout-AtMost now timers tv n s v, serves now timers tv n s u v)
