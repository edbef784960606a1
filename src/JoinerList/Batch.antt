-- ===== src/JoinerList/Batch.antt =====
-- joiner_list_api.hpp: `Write`, which replaces the whole list from one JSON text.
use mathlib.Core.List.{append_assoc, append-nil}
use commissioner.Prelude.{
  ℕ, ◌≤◌, ◌≡◌, refl, subst, sym, ◌∙◌, true, false, none, some, List, [], ◌∷◌, ◌++◌, length, map,
}
use commissioner.Utils.SteeringData.{SteeringData, compute_steering_data}
use commissioner.JoinerList.Json.{Jansson, psk_key, eui64_key}
use commissioner.JoinerList.{
  JoinerInstance, Cell, live, freed, JoinerList, write, write_item, write_items, malformed, joined,
  success_ok, client_error, read, live_values, clear_all, clear_cells, clear_list, rebuild,
}
use commissioner.JoinerList.Synced.{
  SameEntry, Agrees-append, IsSynced, csd_lem, rebuild-append, blank,
}
use commissioner.JoinerList.Operations.{entry, make_instance_lem, clear_list_lem, empty_IsSynced}

abbrev pub entries : List (List ℕ × List ℕ) → List JoinerInstance
entries = map (λ (t : List ℕ × List ℕ). entry t.0 t.1)

module _ (sha256 : List ℕ → List ℕ) (J : Jansson) where
  open J use {Json, loads, elements, object_get, string_value}

  -- A JSON value with both texts, which fit the arrays of an instance.
  pub record Readable (j : Json) (psk : List ℕ) (eui : List ℕ) : Type 0 where
    pub psk_value : Json
    pub eui_value : Json
    pub has_psk : object_get j psk_key ≡ some psk_value
    pub has_eui : object_get j eui64_key ≡ some eui_value
    pub psk_is : string_value psk_value ≡ some psk
    pub eui_is : string_value eui_value ≡ some eui
    pub psk_fits : length psk ≤ 32
    pub eui_fits : length eui ≤ 16

  abbrev pub AllReadable : List Json → List (List ℕ × List ℕ) → Type 0
  AllReadable [] [] = Unit
  AllReadable [] (t ∷ ts) = ⊥
  AllReadable (j ∷ js) [] = ⊥
  AllReadable (j ∷ js) (t ∷ ts) = Readable j t.0 t.1 × AllReadable js ts

  Readable-SameEntry :
      (j : Json) (psk eui : List ℕ) → Readable j psk eui → SameEntry sha256 J j (entry psk eui)
  Readable-SameEntry j psk eui r = record {
    psk_text = rw r.has_psk r.psk_is;
    eui_text = rw r.has_eui r.eui_is;
    decoded = refl;
  }

  write_item_lem :
      (s s' : SteeringData) (j : Json) (psk eui : List ℕ)
      → Readable j psk eui
      → compute_steering_data sha256 s false (entry psk eui).eui64_bin ≡ some s'
      → write_item sha256 J s j ≡ some (joined (entry psk eui) s')
  unfolding write_item
  write_item_lem s s' j psk eui r e =
      rw (r.has_psk, write_item)
        (rw (r.has_eui, r.psk_is, r.eui_is, make_instance_lem psk eui r.psk_fits r.eui_fits, e))

  -- The list after one more element.
  append_one :
      (l : JoinerList sha256 J) (j : Json) (psk eui : List ℕ)
      → IsSynced sha256 J l
      → Readable j psk eui
      → (s' : SteeringData) × (write_item sha256 J l.steering j ≡ some (joined (entry psk eui) s'))
        × IsSynced sha256 J (record l {
          array = l.array ++ live j ∷ [];
          vector = l.vector ++ entry psk eui ∷ [];
          steering = s';
        })
  append_one l j psk eui v r =
      let (s', e, v', len, m, k) = csd_lem sha256 l.steering (entry psk eui) v.filter in
      (
        s',
        write_item_lem l.steering s' j psk eui r e,
        record {
          agrees =
              Agrees-append sha256 J l.array l.vector j (entry psk eui) v.agrees
                (Readable-SameEntry j psk eui r);
          built =
              rebuild-append sha256 J blank l.steering l.vector (entry psk eui ∷ []) v.built
              ∙ one l.steering s' e;
          filter = v';
          fifteen = len ∙ v.fifteen;
        },
      )
    where
      one :
          (s s' : SteeringData)
          → compute_steering_data sha256 s false (entry psk eui).eui64_bin ≡ some s'
          → rebuild sha256 J s (entry psk eui ∷ []) ≡ some s'
      one s s' e = unfold rebuild in rw e

  write_items_lem :
      (l : JoinerList sha256 J) (js : List Json) (ts : List (List ℕ × List ℕ))
      → IsSynced sha256 J l
      → AllReadable js ts
      → (l' : JoinerList sha256 J) × (write_items sha256 J l js ≡ some (l', success_ok))
        × (l'.vector ≡ l.vector ++ entries ts)
        × (l'.updated ≡ true)
        × IsSynced sha256 J l'
  unfolding write_items
  write_items_lem l [] [] v r = (
    record l { updated = true },
    refl,
    sym (append-nil l.vector),
    refl,
    record { agrees = v.agrees; built = v.built; filter = v.filter; fifteen = v.fifteen },
  )
  write_items_lem l [] (t ∷ ts) v r = absurd r
  write_items_lem l (j ∷ js) [] v r = absurd r
  write_items_lem l (j ∷ js) (t ∷ ts) v r =
      let (s', e, v') = append_one l j t.0 t.1 v r.0 in
      let (l', e', vec, u, v'') =
        write_items_lem
          (record l {
            array = l.array ++ live j ∷ [];
            vector = l.vector ++ entry t.0 t.1 ∷ [];
            steering = s';
          })
          js ts v' r.1 in
      (
        l',
        rw (e, write_items) e',
        vec ∙ append_assoc l.vector (entry t.0 t.1 ∷ []) (entries ts),
        u,
        v'',
      )

  -- Let the list be in step. `Write` of a JSON array whose elements all hold a key of at most 32 and an
  -- EUI-64 of at most 16 characters replaces the list by the entries of the array, in its order, marks
  -- it as updated, and leaves it in step.
  pub write_lem :
      (l : JoinerList sha256 J) (text : List ℕ) (parsed : Json) (js : List Json)
      (ts : List (List ℕ × List ℕ))
      → IsSynced sha256 J l
      → loads text ≡ some parsed
      → elements parsed ≡ some js
      → AllReadable js ts
      → (l' : JoinerList sha256 J) × (write sha256 J l text ≡ some (l', success_ok))
        × (l'.vector ≡ entries ts)
        × (l'.updated ≡ true)
        × IsSynced sha256 J l'
  unfolding write
  write_lem l text parsed js ts v hp he r =
      let (l', e, vec, u, v') =
        write_items_lem (record { array = []; vector = []; steering = blank; updated = l.updated })
          js ts (empty_IsSynced sha256 J l.updated) r in
      (l', rw (clear_list_lem sha256 J l v, hp, he) e, vec, u, v')

  -- `Write` of a text that is no JSON reports an error, but the list is already empty, and the
  -- change is not marked.
  pub write_unparsed :
      (l : JoinerList sha256 J) (text : List ℕ)
      → IsSynced sha256 J l
      → loads text ≡ none
      → (l' : JoinerList sha256 J) × (write sha256 J l text ≡ some (l', client_error))
        × (l'.vector ≡ [])
        × (l'.updated ≡ l.updated)
        × IsSynced sha256 J l'
  unfolding write
  write_unparsed l text v h =
      (_, rw (clear_list_lem sha256 J l v, h), refl, refl, empty_IsSynced sha256 J l.updated)

  -- A list whose array holds a freed element.
  abbrev HasFreed : List (Cell Json) → Type 0
  HasFreed [] = ⊥
  HasFreed (live j ∷ cells) = HasFreed cells
  HasFreed (freed ∷ cells) = Unit

  clear_cells_freed :
      (cells : List (Cell Json)) → HasFreed cells → clear_cells sha256 J cells ≡ none
  unfolding clear_cells
  clear_cells_freed [] h = absurd h
  clear_cells_freed (live j ∷ cells) h = clear_cells_freed cells h
  clear_cells_freed (freed ∷ cells) h = refl

  live_values_freed :
      (cells : List (Cell Json)) → HasFreed cells → live_values sha256 J cells ≡ none
  unfolding live_values
  live_values_freed [] h = absurd h
  live_values_freed (live j ∷ cells) h = rw (live_values_freed cells h)
  live_values_freed (freed ∷ cells) h = refl

  abbrev pub IsBroken : JoinerList sha256 J → Type 0
  IsBroken l =
      (read sha256 J l ≡ none)
      × (clear_all sha256 J l ≡ none)
      × ((text : List ℕ) → write sha256 J l text ≡ none)

  HasFreed-IsBroken : (l : JoinerList sha256 J) → HasFreed l.array → IsBroken l
  unfolding read clear_all write clear_list
  HasFreed-IsBroken l h = (
    rw (live_values_freed l.array h),
    rw (clear_cells_freed l.array h),
    λ text. rw (clear_cells_freed l.array h),
  )

  HasFreed-map :
      (x : Cell Json) (cells : List (Cell Json)) → HasFreed (map (λ _. freed) (cells ++ x ∷ []))
  HasFreed-map x [] = tt
  HasFreed-map x (c ∷ cells) = tt

  write_item_bad :
      (s : SteeringData) (bad : Json)
      → object_get bad psk_key ≡ none
      → write_item sha256 J s bad ≡ some malformed
  unfolding write_item
  write_item_bad s bad h = rw (h, write_item)

  write_items_bad :
      (l : JoinerList sha256 J) (x : Cell Json) (cells : List (Cell Json)) (js : List Json)
      (ts : List (List ℕ × List ℕ)) (bad : Json) (rest : List Json)
      → IsSynced sha256 J l
      → l.array ≡ cells ++ x ∷ []
      → AllReadable js ts
      → object_get bad psk_key ≡ none
      → (l' : JoinerList sha256 J) × (write_items sha256 J l (js ++ bad ∷ rest)
          ≡ some (l', client_error))
        × HasFreed l'.array
  unfolding write_items
  write_items_bad l x cells [] [] bad rest v e r h = (
    record l { array = map (λ _. freed) l.array },
    rw (write_item_bad l.steering bad h, write_items),
    subst (λ (c : List (Cell Json)). HasFreed (map (λ _. freed) c)) (sym e) (HasFreed-map x cells),
  )
  write_items_bad l x cells [] (t ∷ ts) bad rest v e r h = absurd r
  write_items_bad l x cells (j ∷ js) [] bad rest v e r h = absurd r
  write_items_bad l x cells (j ∷ js) (t ∷ ts) bad rest v e r h =
      let (s', ew, v') = append_one l j t.0 t.1 v r.0 in
      let (l', e', f) =
        write_items_bad
          (record l {
            array = l.array ++ live j ∷ [];
            vector = l.vector ++ entry t.0 t.1 ∷ [];
            steering = s';
          })
          (live j) l.array js ts bad rest v' refl r.1 h in
      (l', rw (ew, write_items) e', f)

  -- Let the list be in step. `Write` of an array in which some element after the first has no key, while
  -- those before it hold a key and an EUI-64 that fit their arrays, is refused, and leaves
  -- elements in the list that have been freed: the next `Read`, `Clear` or `Write` uses them.
  pub write_partial-IsBroken :
      (l : JoinerList sha256 J) (text : List ℕ) (parsed j bad : Json) (js rest : List Json)
      (t : List ℕ × List ℕ) (ts : List (List ℕ × List ℕ))
      → IsSynced sha256 J l
      → loads text ≡ some parsed
      → elements parsed ≡ some (j ∷ (js ++ bad ∷ rest))
      → AllReadable (j ∷ js) (t ∷ ts)
      → object_get bad psk_key ≡ none
      → (l' : JoinerList sha256 J) × (write sha256 J l text ≡ some (l', client_error)) × IsBroken l'
  unfolding write write_items
  write_partial-IsBroken l text parsed j bad js rest t ts v hp he r h =
      let start : JoinerList sha256 J = record {
        array = [];
        vector = [];
        steering = blank;
        updated = l.updated;
      } in
      let (s', ew, v') = append_one start j t.0 t.1 (empty_IsSynced sha256 J l.updated) r.0 in
      let (l', e', f) =
        write_items_bad
          (record {
            array = live j ∷ [];
            vector = entry t.0 t.1 ∷ [];
            steering = s';
            updated = l.updated;
          })
          (live j) [] js ts bad rest v' refl r.1 h in
      (
        l',
        rw (clear_list_lem sha256 J l v, hp, he) (rw (ew, write_items) e'),
        HasFreed-IsBroken l' f,
      )
