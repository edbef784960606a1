-- ===== src/Plugin/Status/Register.antt =====
-- comm_rest_api.hpp: `ReturnStatus`, used by one thread at a time, and a register.
use commissioner.Prelude.{◌≡◌, ◌⊎◌, inl, inr, refl, ap, ◌∙◌, none, some, List, [], ◌∷◌, arith}
use commissioner.Plugin.Status.{Status, make, get, set_status}

module _ {ℓ} (A : Type ℓ) where
  pub data Call : Type ℓ where
    gets : Call
    sets : A → Call

  -- What the calls of `Get` return, in their order.
  unfoldable pub run : List Call → Status A → List A
  run [] s = []
  run (gets ∷ calls) s = let (value, s') = get s in value ∷ run calls s'
  run (sets value ∷ calls) s = run calls (set_status value s)

  -- A register holds one value.
  abbrev pub run_register : List Call → A → List A
  run_register [] value = []
  run_register (gets ∷ calls) value = value ∷ run_register calls value
  run_register (sets new ∷ calls) value = run_register calls new

  abbrev Holds : Status A → A → Type ℓ
  Holds s value = (s.old_status ≡ value) × ((s.pending ≡ none) ⊎ (s.pending ≡ some value))

  get-Holds :
      (s : Status A) (value : A) → Holds s value → ((get s).0 ≡ value) × Holds (get s).1 value
  unfolding get
  get-Holds s value (o, inl e) = ground (arith, e, o)
  get-Holds s value (o, inr e) = ground (arith, e, o)

  run-Holds :
      (calls : List Call) (s : Status A) (value : A)
      → Holds s value
      → run calls s ≡ run_register calls value
  unfolding run set_status
  run-Holds [] s value h = refl
  run-Holds (gets ∷ calls) s value h =
      let (e, h') = get-Holds s value h in
      ap (λ v. v ∷ run calls (get s).1) e ∙ ap (◌∷◌ value) (run-Holds calls (get s).1 value h')
  run-Holds (sets new ∷ calls) s value h = run-Holds calls (set_status new s) new (refl, inr refl)

  -- Under any sequence of calls, one after the other, a status returns what a register does that
  -- holds the value set last, and at first the value that it was made with.
  pub run-register :
      (calls : List Call) (old_status : A)
      → run calls (make old_status) ≡ run_register calls old_status
  unfolding make
  run-register calls old_status = run-Holds calls (make old_status) old_status (refl, inl refl)
