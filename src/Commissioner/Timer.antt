-- ===== src/Commissioner/Timer.antt =====
-- commissioner.cpp: when a keep-alive is sent.
use commissioner.Prelude.{
  ℕ, ◌+◌, ◌≤◌, ◌<◌, ◌≡◌, ◌⊎◌, inl, inr, refl, true, some, List, [], ◌∷◌, arith, length, ltb,
  Bool-cases, ◌&&◌,
}
use commissioner.Commissioner.{
  Commissioner, accepted, is_state, process_timer, send, confirmable, keep_alive_path,
  host_order_int, next_token,
}
use commissioner.Common.Tlv.Walk.{encode_all}
use commissioner.Commissioner.Wire.{tlv, bytes16, commissioner_keep_alive_lem}

-- The keep-alive is due.
abbrev pub IsDue : ℕ → Commissioner → Type 0
IsDue now c =
    (is_state c.state accepted ≡ true)
    × (0 < c.keep_alive_rate)
    × (c.last_keep_alive + c.keep_alive_rate < now)

-- What a commissioner is after its keep-alive at `now`.
abbrev pub kept_alive : ℕ → Commissioner → Commissioner
kept_alive now c =
    let c' =
      send c confirmable (host_order_int (next_token c)) keep_alive_path
        (encode_all (tlv 16 (1 ∷ []) ∷ tlv 11 (bytes16 c.session_id) ∷ [])) in
    record c' { last_keep_alive = now; keep_alive_tx_count = c.keep_alive_tx_count + 1 }

process_timer-quiet :
    (buffer : List ℕ) (later : ℕ) (c : Commissioner)
    → later ≤ c.last_keep_alive + c.keep_alive_rate
    → process_timer buffer later c ≡ some c
unfolding process_timer
process_timer-quiet buffer later c h = elim (Bool-cases (is_state c.state accepted)) [
  | inl b ↦ ground (arith, b)
  | inr b ↦ ground (arith, b)
]

kept_alive-rate :
    (now : ℕ) (c : Commissioner) → (kept_alive now c).keep_alive_rate ≡ c.keep_alive_rate
unfolding send
kept_alive-rate now c = refl

-- The timer sends one keep-alive exactly when the commissioner is accepted, has a rate and that many
-- seconds have gone by; then it sends no other until that time has gone by again.
pub process_timer_lem :
    (buffer : List ℕ) (now later : ℕ) (c : Commissioner)
    → length buffer ≡ 1500
    → (IsDue now c
        × (process_timer buffer now c ≡ some (kept_alive now c))
        × (later ≤ now + c.keep_alive_rate
            → process_timer buffer later (kept_alive now c) ≡ some (kept_alive now c)))
      ⊎ ((¬ IsDue now c) × (process_timer buffer now c ≡ some c))
unfolding process_timer
process_timer_lem buffer now later c h =
    elim (Bool-cases (
      is_state c.state accepted
      && (ltb 0 c.keep_alive_rate && ltb (c.last_keep_alive + c.keep_alive_rate) now))) [
        | inl b ↦ inl (
          ground (arith, b),
          rw b (commissioner_keep_alive_lem buffer now c h),
          λ l.
              process_timer-quiet buffer later (kept_alive now c)
                (omega (arith, l, kept_alive-rate now c)),
        )
        | inr b ↦ inr (ground (arith, b), rw b refl)
      ]
