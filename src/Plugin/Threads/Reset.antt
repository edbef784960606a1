-- ===== src/Plugin/Threads/Reset.antt =====
-- inc/comm.hpp: `ResetCommissioner` starts a new manager thread, and only then stops the old one.
use commissioner.Prelude.{ℕ, ◌≡◌, refl, Bool, true, false, Option, none, some, List, [], ◌∷◌, arith}
use commissioner.Prelude.Chain.{◌>>=◌}
use commissioner.Plugin.Threads.{
  Manager, Shared, blocked, undefined, moved, manager_step, worker_step, new_manager,
  uses_commissioner,
}

-- The plugin while the old manager has not been joined.
pub record Pair : Type 0 where
  pub old : Manager
  pub new : Manager
  pub shared : Shared

-- Whose step is next. `stop_old` sets the promise of the old manager.
pub data Turn : Type 0 where
  old_manager old_worker fresh_manager fresh_worker : Bool → Turn
  stop_old : Turn

unfoldable pub reset_commissioner : Manager → Shared → Pair
reset_commissioner m s = record { old = m; new = new_manager; shared = s }

unfoldable pub take_turn : Turn → Pair → Option Pair
unfolding manager_step worker_step
take_turn (old_manager choice) p = elim (manager_step choice p.old p.shared) [
  | blocked ↦ none
  | undefined ↦ none
  | moved m s ↦ some (record p { old = m; shared = s })
]
take_turn (old_worker choice) p =
    let (m, s) = worker_step choice p.old p.shared in some (record p { old = m; shared = s })
take_turn (fresh_manager choice) p = elim (manager_step choice p.new p.shared) [
  | blocked ↦ none
  | undefined ↦ none
  | moved m s ↦ some (record p { new = m; shared = s })
]
take_turn (fresh_worker choice) p =
    let (m, s) = worker_step choice p.new p.shared in some (record p { new = m; shared = s })
take_turn stop_old p = some (record p { old = record p.old { stop = true } })

unfoldable pub take_turns : List Turn → Pair → Option Pair
unfolding take_turn
take_turns [] p = some p
take_turns (t ∷ ts) p = take_turn t p >>= take_turns ts

-- Both managers see the change; the old one sets the pointer last, times out and frees its object.
abbrev race : List Turn
race =
    old_manager true
    ∷ old_manager true
    ∷ old_manager true
    ∷ old_manager true
    ∷ fresh_manager true
    ∷ fresh_manager true
    ∷ fresh_manager true
    ∷ fresh_manager true
    ∷ fresh_manager true
    ∷ fresh_manager true
    ∷ old_manager true
    ∷ old_manager true
    ∷ old_manager true
    ∷ stop_old
    ∷ old_manager false
    ∷ old_manager true
    ∷ old_worker true
    ∷ old_worker true
    ∷ old_worker true
    ∷ old_manager true
    ∷ old_manager true
    ∷ old_manager true
    ∷ old_manager true
    ∷ old_manager true
    ∷ old_manager true
    ∷ old_manager true
    ∷ old_manager true
    ∷ []

-- After a reset of an idle plugin to which new parameters come while its old manager still runs, the
-- threads can take turns such that the worker of the new manager is about to call a commissioner that
-- the old manager has freed.
pub reset_race :
    (s : Shared)
    → (ts : List Turn) × (p : Pair) × (i : ℕ) × (take_turns ts
          (reset_commissioner new_manager (record s { changed = true }))
        ≡ some p)
      × (uses_commissioner p.new.worker ≡ true)
      × (p.shared.pointer ≡ some i)
      × (p.shared.alive i ≡ false)
unfolding take_turns reset_commissioner new_manager
reset_race s = (race, _, s.next, refl, refl, refl, ground arith)
