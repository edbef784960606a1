-- ===== src/Plugin/Status.antt =====
-- inc/comm_rest_api.hpp: `ReturnStatus`, by which the threads tell the REST interface how they are. A
-- promise and its future are the value that was set and not yet taken.
pub mod Register
pub mod Readers
use commissioner.Prelude.{Option, none, some}

pub record Status {ℓ} (A : Type ℓ) : Type ℓ where
  pub pending : Option A
  pub old_status : A

module _ {ℓ} {A : Type ℓ} where
  -- `Reset` makes a new promise; `old_status` is what its type's constructor gives.
  unfoldable pub make : A → Status A
  make old_status = record { pending = none; old_status = old_status }

  unfoldable pub is_ready : Status A → Option A
  is_ready s = s.pending

  -- The result of `Get`, when no other thread comes between.
  unfoldable pub get : Status A → A × Status A
  get s = elim s.pending [
    | some value ↦ (value, record s { pending = none })
    | none ↦ (s.old_status, s)
  ]

  unfoldable pub set_status : A → Status A → Status A
  set_status val s = record { pending = some val; old_status = val }
