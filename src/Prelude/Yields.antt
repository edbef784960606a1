-- ===== src/Prelude/Yields.antt =====
-- Properties of what a computation that may fail ends with.
use mathlib.Core.Path.{◌≡◌, refl}
use mathlib.Core.Bool.{Bool, true, false, not}
use mathlib.Core.Option.{Option, none, some}
use commissioner.Prelude.{if◌then◌else◌}
use commissioner.Prelude.Chain.{◌>>=◌}

-- What a computation ends with, if it ends, has the property.
pub data Yields {ℓ κ} {A : Type ℓ} (Q : A → Type κ) : Option A → Type (ℓ ⊔ κ) where
  nothing : Yields Q none
  gives : {x : A} → Q x → Yields Q (some x)

pub Yields-bind {ℓ κ μ} :
    {A : Type ℓ} {B : Type κ} {Q : B → Type μ} (m : Option A) {f : A → Option B}
    → ((x : A) → Yields Q (f x))
    → Yields Q (m >>= f)
Yields-bind none h = nothing
Yields-bind (some x) h = h x

pub Yields-after {ℓ κ μ ν} :
    {A : Type ℓ} {B : Type κ} {P : A → Type μ} {Q : B → Type ν} {m : Option A} {f : A → Option B}
    → Yields P m
    → ((x : A) → P x → Yields Q (f x))
    → Yields Q (m >>= f)
Yields-after nothing h = nothing
Yields-after (gives {x = x} p) h = h x p

pub Yields-if {ℓ κ} :
    {A : Type ℓ} {Q : A → Type κ} (b : Bool) {x y : Option A}
    → Yields Q x
    → Yields Q y
    → Yields Q (if b then x else y)
Yields-if true h k = h
Yields-if false h k = k

pub Yields-option {ℓ κ μ} :
    {A : Type ℓ} {B : Type κ} {Q : B → Type μ} (o : Option A) {n : Option B} {f : A → Option B}
    → Yields Q n
    → ((x : A) → Yields Q (f x))
    → Yields Q (elim o [ none ↦ n | some x ↦ f x ])
Yields-option none h k = h
Yields-option (some x) h k = k x

pub Yields-guard {ℓ κ} :
    {A : Type ℓ} {Q : A → Type κ} (b : Bool) {x : Option A}
    → (b ≡ true → Yields Q x)
    → Yields Q (if not b then none else x)
Yields-guard true h = h refl
Yields-guard false h = nothing

pub yielded {ℓ κ} : {A : Type ℓ} {Q : A → Type κ} {x : A} → Yields Q (some x) → Q x
yielded (gives q) = q

-- A property of both branches.
pub holds-if {ℓ κ} :
    {A : Type ℓ} (Q : A → Type κ) (b : Bool) (x y : A) → Q x → Q y → Q (if b then x else y)
holds-if Q true x y h k = h
holds-if Q false x y h k = k
