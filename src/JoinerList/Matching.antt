-- ===== src/JoinerList/Matching.antt =====
-- joiner_list_api.hpp: histories of calls, and the access to single entries.
use commissioner.Prelude.{
  ℕ, zero, suc, ◌+◌, ◌-◌, ◌%◌, ◌^◌, ◌≤◌, ◌<◌, ◌≡◌, refl, ap, subst, sym, ◌∙◌, false, Option, none,
  some, List, [], ◌∷◌, arith, length, All, get_elem?, get_elem?-get_or, ltb, ◌⊎◌, inl, inr,
}
use commissioner.Utils.SteeringData.{SteeringData}
use commissioner.Utils.SteeringData.Filter.{Matches}
use commissioner.JoinerList.Json.{Jansson}
use commissioner.JoinerList.{
  JoinerInstance, JoinerList, StatusCode, edit, remove, clear_all, write, list_update_finished,
  get_joiner_instance, instance_at,
}
use commissioner.JoinerList.Synced.{IsSynced, id_of, blank, blank-IsFilter, rebuild_lem}
use commissioner.JoinerList.Operations.{edit_lem, remove_lem, clear_all_lem}
use commissioner.JoinerList.Batch.{AllReadable, write_lem, write_unparsed}

get_elem?-past : {A : Type 0} (xs : List A) (i : ℕ) → length xs ≤ i → get_elem? xs i ≡ none
get_elem?-past [] i h = refl
get_elem?-past (x ∷ xs) zero h = absurd (omega arith)
get_elem?-past (x ∷ xs) (suc i) h = get_elem?-past xs i (omega arith)

pub instance_at_lem :
    (v : List JoinerInstance) (num : ℕ)
    → length v < 2 ^ 64
    → num < 2 ^ 32
    → ((v ≡ []) × (instance_at v num ≡ none))
      ⊎ ((0 < length v) × (instance_at v num ≡ some (get_elem? v num)))
unfolding instance_at
instance_at_lem [] num h hn = inl (refl, rw (past 0 num (omega arith) (omega arith)))
  where
    past : (n i : ℕ) → n ≡ 0 → i < 2 ^ 32 → ltb ((n + 2 ^ 64 - 1) % 2 ^ 64) i ≡ false
    past n i e l = ground arith
instance_at_lem (x ∷ xs) num h hn =
    let e : (length (x ∷ xs) + 2 ^ 64 - 1) % 2 ^ 64 ≡ length xs = omega arith in
    inr (
      omega arith,
      rw e (ground (arith, get_elem?-past (x ∷ xs) num, get_elem?-get_or (x ∷ xs) num x)),
    )

some-injective' {ℓ} : {A : Type ℓ} {a b : A} → some a ≡ some b → a ≡ b
some-injective' h = cc

module _ (sha256 : List ℕ → List ℕ) (J : Jansson) where
  open J use {Json, loads, elements, string}

  -- The calls of the REST handlers and of the commissioner, on arguments that fit.
  pub data Step : JoinerList sha256 J → JoinerList sha256 J → Type 0 where
    edits :
        {l l' : JoinerList sha256 J} {c : StatusCode} (body eui : List ℕ) (p e : Json)
        → length eui ≡ 16
        → length body ≤ 32
        → string body ≡ some p
        → string eui ≡ some e
        → edit sha256 J l body eui ≡ some (l', c)
        → Step l l'
    removes :
        {l l' : JoinerList sha256 J} {c : StatusCode} (eui : List ℕ)
        → remove sha256 J l eui ≡ some (l', c)
        → Step l l'
    clears : {l l' : JoinerList sha256 J} → clear_all sha256 J l ≡ some l' → Step l l'
    writes :
        {l l' : JoinerList sha256 J} {c : StatusCode} (text : List ℕ) (parsed : Json)
        (js : List Json) (ts : List (List ℕ × List ℕ))
        → loads text ≡ some parsed
        → elements parsed ≡ some js
        → AllReadable sha256 J js ts
        → write sha256 J l text ≡ some (l', c)
        → Step l l'
    writes_garbage :
        {l l' : JoinerList sha256 J} {c : StatusCode} (text : List ℕ)
        → loads text ≡ none
        → write sha256 J l text ≡ some (l', c)
        → Step l l'
    finishes : (l : JoinerList sha256 J) → Step l (list_update_finished sha256 J l)

  same_list :
      {l l' : JoinerList sha256 J} {c d : StatusCode}
      {o : Option (JoinerList sha256 J × StatusCode)}
      → o ≡ some (l, c)
      → o ≡ some (l', d)
      → IsSynced sha256 J l
      → IsSynced sha256 J l'
  same_list h k v =
      subst (IsSynced sha256 J)
        (ap (λ (t : JoinerList sha256 J × StatusCode). t.0) (some-injective' (sym h ∙ k))) v

  Step-IsSynced :
      {l l' : JoinerList sha256 J} → Step l l' → IsSynced sha256 J l → IsSynced sha256 J l'
  unfolding list_update_finished
  Step-IsSynced (edits {l = l} body eui p e he hb hp hs h) v =
      let (m, em, vec, u, vm) = edit_lem sha256 J l body eui p e v he hb hp hs in same_list em h vm
  Step-IsSynced (removes {l = l} eui h) v = elim (remove_lem sha256 J l eui v) [
    | inl (hit, m, em, vec, u, vm) ↦ same_list em h vm
    | inr (miss, em) ↦ same_list em h v
  ]
  Step-IsSynced (clears {l = l} h) v =
      let (m, em, vec, u, vm) = clear_all_lem sha256 J l v in
      subst (IsSynced sha256 J) (some-injective' (sym em ∙ h)) vm
  Step-IsSynced (writes {l = l} text parsed js ts hp he r h) v =
      let (m, em, vec, u, vm) = write_lem sha256 J l text parsed js ts v hp he r in
      same_list em h vm
  Step-IsSynced (writes_garbage {l = l} text hp h) v =
      let (m, em, vec, u, vm) = write_unparsed sha256 J l text v hp in same_list em h vm
  Step-IsSynced (finishes l) v = record {
    agrees = v.agrees;
    built = v.built;
    filter = v.filter;
    fifteen = v.fifteen;
  }

  pub data Reach (l : JoinerList sha256 J) : JoinerList sha256 J → Type 0 where
    here : Reach l l
    next : {m n : JoinerList sha256 J} → Reach l m → Step m n → Reach l n

  Reach-IsSynced :
      {l m : JoinerList sha256 J} → Reach l m → IsSynced sha256 J l → IsSynced sha256 J m
  Reach-IsSynced here v = v
  Reach-IsSynced (next r st) v = Step-IsSynced st (Reach-IsSynced r v)

  -- After any history of calls on arguments that fit, from a list in step, the steering data that
  -- the commissioner sends admits every joiner of the list.
  pub Reach-Matches :
      {l m : JoinerList sha256 J}
      → IsSynced sha256 J l
      → Reach l m
      → All (λ i. Matches m.steering (id_of sha256 i)) m.vector
  Reach-Matches {m = m} v r =
      let w = Reach-IsSynced r v in
      let (s, e, f, len, admitted, k) = rebuild_lem sha256 J blank m.vector blank-IsFilter in
      subst (λ (t : SteeringData). All (λ i. Matches t (id_of sha256 i)) m.vector)
        (some-injective' (sym e ∙ w.built)) admitted

  -- The loop condition of `FindEui`: on a list with entries, an index in range gives its entry and
  -- one behind the end gives null; on the empty list every index gives a pointer to no entry.
  pub get_joiner_instance_lem :
      (l : JoinerList sha256 J) (num : ℕ)
      → length l.vector < 2 ^ 64
      → num < 2 ^ 32
      → ((l.vector ≡ []) × (get_joiner_instance sha256 J l num ≡ none))
        ⊎ ((0 < length l.vector)
            × (get_joiner_instance sha256 J l num ≡ some (get_elem? l.vector num)))
  unfolding get_joiner_instance
  get_joiner_instance_lem l num h hn = instance_at_lem l.vector num h hn
