-- ===== src/JoinerList/Operations.antt =====
-- joiner_list_api.hpp: what each operation does to the list.
use commissioner.Prelude.{
  ℕ, ◌≤◌, ◌≡◌, ◌⊎◌, inl, inr, refl, Bool, true, false, some, List, [], ◌∷◌, ◌++◌, arith, lt→ltb,
  length, Bool-cases,
}
use commissioner.Utils.SteeringData.{clear}
use commissioner.JoinerList.Json.{Jansson, psk_key, eui64_key}
use commissioner.JoinerList.{
  JoinerInstance, Cell, live, freed, eui64_bytes, make_instance, JoinerList, edit, remove,
  clear_all, success_ok, client_error_not_found, entry_object, rebuild, compute_steering, refresh,
  clear_cells, clear_list,
}
use commissioner.JoinerList.Synced.{
  without, has_eui, blank, SameEntry, Agrees, Agrees-append, IsSynced, take_out_lem, steering_lem,
  rebuild_lem, blank-IsFilter,
}

abbrev pub entry : List ℕ → List ℕ → JoinerInstance
entry psk eui = record { pskd_ascii = psk; eui64_ascii = eui; eui64_bin = eui64_bytes eui }

pub make_instance_lem :
    (psk eui : List ℕ)
    → length psk ≤ 32
    → length eui ≤ 16
    → make_instance psk eui ≡ some (entry psk eui)
unfolding make_instance
make_instance_lem psk eui hp he =
    rw (lt→ltb (length psk) 33 (omega arith), lt→ltb (length eui) 17 (omega arith))

module _ (sha256 : List ℕ → List ℕ) (J : Jansson) where
  open J use {Json, string, string_value, object_get, get-set_self, get-set_ne, value-string}

  entry_object_lem :
      (psk eui : List ℕ) (p e : Json)
      → string psk ≡ some p
      → string eui ≡ some e
      → SameEntry sha256 J (entry_object sha256 J psk eui) (entry psk eui)
  unfolding entry_object
  entry_object_lem psk eui p e hp he = record {
    psk_text =
        rw (hp, he, get-set_ne _ eui64_key psk_key e refl, get-set_self _ psk_key p)
          (value-string psk p hp);
    eui_text = rw (hp, he, get-set_self _ eui64_key e) (value-string eui e he);
    decoded = refl;
  }

  -- `Edit` with an EUI-64 of 16 characters and a key of at most 32, both of them texts that JSON
  -- can hold, succeeds on a list in step: it takes out the first entry for that EUI-64 if there
  -- is one, appends the new entry, marks the list as updated, and keeps it in step.
  pub edit_lem :
      (l : JoinerList sha256 J) (body eui : List ℕ) (p e : Json)
      → IsSynced sha256 J l
      → length eui ≡ 16
      → length body ≤ 32
      → string body ≡ some p
      → string eui ≡ some e
      → (l' : JoinerList sha256 J) × (edit sha256 J l body eui ≡ some (l', success_ok))
        × (l'.vector ≡ without eui l.vector ++ entry body eui ∷ [])
        × (l'.updated ≡ true)
        × IsSynced sha256 J l'
  unfolding edit compute_steering
  edit_lem l body eui p e v he hb hp hs =
      let (found, cells, ef, et, a, how) = take_out_lem sha256 J l eui v.agrees in
      let (s', es, eb, vs, ls) =
        steering_lem sha256 J l.steering l.vector (entry body eui) (has_eui eui l.vector) v.built
          v.filter v.fifteen (without eui l.vector)
          (elim how [ inl t ↦ inl t | inr (c, w) ↦ inr w ]) in
      (
        record {
          array = cells ++ live (entry_object sha256 J body eui) ∷ [];
          vector = without eui l.vector ++ entry body eui ∷ [];
          steering = s';
          updated = true;
        },
        rw (he, ef, et, make_instance_lem body eui hb (omega arith), es),
        refl,
        refl,
        record {
          agrees =
              Agrees-append sha256 J cells (without eui l.vector) _ (entry body eui) a
                (entry_object_lem body eui p e hp hs);
          built = eb;
          filter = vs;
          fifteen = ls;
        },
      )

  -- `Remove` on a list in step takes out the first entry for the EUI-64 if there is one, recomputes
  -- the filter without it and marks the list as updated; else it says so and changes nothing.
  pub remove_lem :
      (l : JoinerList sha256 J) (eui : List ℕ)
      → IsSynced sha256 J l
      → ((has_eui eui l.vector ≡ true)
          × (l' : JoinerList sha256 J) × (remove sha256 J l eui ≡ some (l', success_ok))
          × (l'.vector ≡ without eui l.vector)
          × (l'.updated ≡ true)
          × IsSynced sha256 J l')
        ⊎ ((has_eui eui l.vector ≡ false)
            × (remove sha256 J l eui ≡ some (l, client_error_not_found)))
  unfolding remove refresh clear
  remove_lem l eui v =
      let (found, cells, ef, et, a, how) = take_out_lem sha256 J l eui v.agrees in
      let (s', es, vs, ls, ms, ks) =
        rebuild_lem sha256 J blank (without eui l.vector) blank-IsFilter in
      elim (Bool-cases (has_eui eui l.vector)) [
        | inl hit ↦ inl (
          hit,
          record { array = cells; vector = without eui l.vector; steering = s'; updated = true },
          rw (ef, et, hit, v.fifteen, es),
          refl,
          refl,
          record { agrees = a; built = es; filter = vs; fifteen = ls },
        )
        | inr miss ↦ inr (miss, rw (ef, et, miss))
      ]

  clear_cells_lem :
      (cells : List (Cell Json)) (is : List JoinerInstance)
      → Agrees sha256 J cells is
      → clear_cells sha256 J cells ≡ some []
  unfolding clear_cells
  clear_cells_lem [] is a = refl
  clear_cells_lem (freed ∷ cells) is a = absurd a
  clear_cells_lem (live j ∷ cells) [] a = absurd a
  clear_cells_lem (live j ∷ cells) (i ∷ is) a = clear_cells_lem cells is a.1

  pub clear_list_lem :
      (l : JoinerList sha256 J)
      → IsSynced sha256 J l
      → clear_list sha256 J l
        ≡ some (record { array = []; vector = []; steering = blank; updated = l.updated })
  unfolding clear_list clear
  clear_list_lem l v = rw (clear_cells_lem l.array l.vector v.agrees, v.fifteen)

  pub empty_IsSynced :
      (u : Bool)
      → IsSynced sha256 J (record { array = []; vector = []; steering = blank; updated = u })
  unfolding rebuild
  empty_IsSynced u = record { agrees = tt; built = refl; filter = blank-IsFilter; fifteen = refl }

  -- `Clear` empties a list in step and marks it as updated.
  pub clear_all_lem :
      (l : JoinerList sha256 J)
      → IsSynced sha256 J l
      → (l' : JoinerList sha256 J) × (clear_all sha256 J l ≡ some l')
        × (l'.vector ≡ [])
        × (l'.updated ≡ true)
        × IsSynced sha256 J l'
  unfolding clear_all
  clear_all_lem l v = (_, rw (clear_list_lem l v), refl, refl, empty_IsSynced true)
