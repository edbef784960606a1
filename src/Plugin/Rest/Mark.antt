-- ===== src/Plugin/Rest/Mark.antt =====
-- comm_rest_api.cpp: which answers mark the joiner list as updated.
use commissioner.Prelude.{
  ℕ, ◌≡◌, ◌⊎◌, inl, inr, refl, Bool, true, Option, none, some, List, [], ◌∷◌,
}
use commissioner.Pskc.{Pskc}
use commissioner.JoinerList.{
  JoinerList, JoinerInstance, StatusCode, success_ok, client_error, client_error_not_found, Item,
  malformed, joined, write_item, write_items, write, edit, clear_list, clear_all, take_out,
  find_eui, refresh, compute_steering, make_instance, remove,
}
use commissioner.JoinerList.Json.{Jansson}
use commissioner.Plugin.Rest.{
  Request, Response, Route, joiners_write, joiners_edit, joiners_clear, joiners_remove, Service,
  network_write, network_delete, network_read, respond, path_text, c_str, is_empty, on_list,
  post_network, get_network, delete_network, post_joiners, put_joiner, delete_joiners,
  delete_joiner, get_joiners,
}
use commissioner.Prelude.Yields.{
  Yields, nothing, gives, Yields-bind, Yields-after, Yields-if, Yields-option,
}

module _ (sha256 : List ℕ → List ℕ) (J : Jansson) where
  open J use {Json, loads, elements}

  -- An answer that reports success marks the list, or leaves it as it was.
  abbrev pub IsMarked : JoinerList sha256 J → JoinerList sha256 J × StatusCode → Type 0
  IsMarked l (l', code) = code ≡ success_ok → (l'.updated ≡ true) ⊎ (l' ≡ l)

  abbrev IsUpdated : JoinerList sha256 J × StatusCode → Type 0
  IsUpdated (l, code) = code ≡ success_ok → l.updated ≡ true

  write_item-cases :
      (l : JoinerList sha256 J) (j : Json) (js : List Json) (o : Option (Item sha256 J))
      → ((m : JoinerList sha256 J) → Yields IsUpdated (write_items sha256 J m js))
      → write_item sha256 J l.steering j ≡ o
      → Yields IsUpdated (write_items sha256 J l (j ∷ js))
  unfolding write_items
  write_item-cases l j js none h e = rw (e, write_items) nothing
  write_item-cases l j js (some malformed) h e = rw (e, write_items) (gives λ c. absurd (cc))
  write_item-cases l j js (some (joined i s)) h e = rw (e, write_items) (h _)

  write_items-IsUpdated :
      (js : List Json) (l : JoinerList sha256 J) → Yields IsUpdated (write_items sha256 J l js)
  unfolding write_items
  write_items-IsUpdated [] l = gives λ c. refl
  write_items-IsUpdated (j ∷ js) l = write_item-cases l j js _ (write_items-IsUpdated js) refl

  write-IsUpdated :
      (l : JoinerList sha256 J) (text : List ℕ) → Yields IsUpdated (write sha256 J l text)
  unfolding write
  write-IsUpdated l text = Yields-bind (clear_list sha256 J l) λ l'.
      Yields-option (loads text) (gives λ c. absurd (cc)) λ parsed.
        Yields-option (elements parsed) (write_items-IsUpdated (parsed ∷ []) l')
          λ items. write_items-IsUpdated items l'

  compute_steering-updated :
      (l : JoinerList sha256 J) (recalc : Bool) (back : JoinerInstance)
      → Yields
          (λ (m : JoinerList sha256 J). m.updated ≡ true)
          (compute_steering sha256 J l recalc back)
  unfolding compute_steering
  compute_steering-updated l recalc back = Yields-bind _ λ s. gives refl

  mark :
      {l : JoinerList sha256 J} {x : JoinerList sha256 J × StatusCode} → IsUpdated x → IsMarked l x
  mark {x = (m, code)} u = λ c. inl (u c)

  unmarked : (l : JoinerList sha256 J) (c : StatusCode) → IsMarked l (l, c)
  unmarked l c = λ e. inr refl

  weaken :
      {o : Option (JoinerList sha256 J × StatusCode)} (l : JoinerList sha256 J)
      → Yields IsUpdated o
      → Yields (IsMarked l) o
  weaken l nothing = nothing
  weaken l (gives {x = x} u) = gives (mark {x = x} u)

  edit-IsMarked :
      (l : JoinerList sha256 J) (body eui : List ℕ) → Yields (IsMarked l) (edit sha256 J l body eui)
  unfolding edit
  edit-IsMarked l body eui =
      Yields-if _
        (Yields-bind (find_eui sha256 J l.array eui 0) λ found.
          Yields-bind (take_out sha256 J l found) λ taken.
            Yields-bind (make_instance body eui)
              λ i. Yields-after (compute_steering-updated _ taken.1 i) λ m u. gives λ c. inl u)
        (gives (unmarked l client_error))

  refresh-updated :
      (l : JoinerList sha256 J)
      → Yields (λ (m : JoinerList sha256 J). m.updated ≡ true) (refresh sha256 J l)
  unfolding refresh
  refresh-updated l = Yields-bind _ λ s. gives refl

  remove-IsMarked :
      (l : JoinerList sha256 J) (eui : List ℕ)
      → Yields
          (λ (x : JoinerList sha256 J × StatusCode). (x.0.updated ≡ true) ⊎ (x.0 ≡ l))
          (remove sha256 J l eui)
  unfolding remove refresh
  remove-IsMarked l eui = Yields-bind (find_eui sha256 J l.array eui 0) λ found.
      Yields-bind (take_out sha256 J l found) λ taken.
        Yields-if taken.1 (Yields-after (refresh-updated taken.0) λ m u. gives (inl u))
          (gives {x = (l, client_error_not_found)} (inr refl))

  joiners_write-IsMarked :
      (l : JoinerList sha256 J) (req : Request) → Yields (IsMarked l) (joiners_write sha256 J l req)
  unfolding joiners_write
  joiners_write-IsMarked l req =
      Yields-if (is_empty req.body) (gives (unmarked l client_error))
        (weaken l (write-IsUpdated l (c_str req.body)))

  joiners_edit-IsMarked :
      (l : JoinerList sha256 J) (req : Request) → Yields (IsMarked l) (joiners_edit sha256 J l req)
  unfolding joiners_edit
  joiners_edit-IsMarked l req =
      Yields-if (is_empty req.body) (gives (unmarked l client_error))
        (Yields-bind (path_text req.path) λ eui. edit-IsMarked l (c_str req.body) eui)

  clear_all-updated :
      (l : JoinerList sha256 J)
      → Yields (λ (m : JoinerList sha256 J). m.updated ≡ true) (clear_all sha256 J l)
  unfolding clear_all
  clear_all-updated l = Yields-bind _ λ m. gives refl

  joiners_clear-IsMarked :
      (l : JoinerList sha256 J) → Yields (IsMarked l) (joiners_clear sha256 J l)
  unfolding joiners_clear
  joiners_clear-IsMarked l = Yields-after (clear_all-updated l) λ m u. gives λ c. inl u

  joiners_remove-IsMarked :
      (l : JoinerList sha256 J) (req : Request)
      → Yields (IsMarked l) (joiners_remove sha256 J l req)
  unfolding joiners_remove
  joiners_remove-IsMarked l req =
      Yields-bind (path_text req.path)
        λ eui. Yields-after (remove-IsMarked l eui) λ x u. gives λ c. u

  module _ (integer_value : J.Json → Option ℕ) (object_update : J.Json → J.Json → J.Json)
      (object_dumps : J.Json → List ℕ) (prf : List ℕ → List ℕ → List ℕ) (iterations : ℕ) where
    abbrev pub Host : Type 0
    Host = Service sha256 J integer_value object_update object_dumps prf iterations

    -- An answer that reports success marks the joiner list, or leaves it as it was.
    abbrev pub KeepsMark : Host → Host × Response → Type 0
    KeepsMark s (s', r) =
        r.code ≡ success_ok → (s'.joiner_list.updated ≡ true) ⊎ (s'.joiner_list ≡ s.joiner_list)

    on_list-KeepsMark :
        (s : Host) {o : Option (JoinerList sha256 J × StatusCode)}
        → Yields (IsMarked s.joiner_list) o
        → Yields
            (KeepsMark s)
            (on_list sha256 J integer_value object_update object_dumps prf iterations s o)
    on_list-KeepsMark s y = Yields-after y λ x u. gives u

    -- Every request that is answered with success marks the joiner list as updated, or leaves it as it
    -- was.
    pub respond-KeepsMark :
        (pskc : Pskc) (s : Host) (route : Route) (req : Request)
        → Yields (KeepsMark s) (
            respond sha256 J integer_value object_update object_dumps prf iterations pskc s route
              req)
    unfolding respond network_write network_delete network_read
    respond-KeepsMark pskc s post_network req =
        Yields-after
          (Yields-if {Q = λ x. x.0.joiner_list ≡ s.joiner_list} (is_empty req.body) (gives refl)
            (Yields-bind _ λ a. gives refl))
          λ x e. gives λ c. inr e
    respond-KeepsMark pskc s get_network req = gives λ c. inr refl
    respond-KeepsMark pskc s delete_network req =
        Yields-after
          (Yields-after {Q = λ x. x.0.joiner_list.updated ≡ true} (clear_all-updated s.joiner_list)
            λ l u. gives u)
          λ x u. gives λ c. inl u
    respond-KeepsMark pskc s post_joiners req =
        on_list-KeepsMark s (joiners_write-IsMarked s.joiner_list req)
    respond-KeepsMark pskc s put_joiner req =
        on_list-KeepsMark s (joiners_edit-IsMarked s.joiner_list req)
    respond-KeepsMark pskc s delete_joiners req =
        on_list-KeepsMark s (joiners_clear-IsMarked s.joiner_list)
    respond-KeepsMark pskc s delete_joiner req =
        on_list-KeepsMark s (joiners_remove-IsMarked s.joiner_list req)
    respond-KeepsMark pskc s get_joiners req = Yields-bind _ λ text. gives λ c. inr refl
