-- ===== src/Mdns/Avahi/Records.antt =====
-- mdns_avahi.cpp: the text records of a service, in the array of `PublishService`.
use commissioner.Prelude.{
  ℕ, ◌+◌, ◌*◌, ◌/◌, ◌≡◌, ◌≤◌, refl, ◌∙◌, none, some, List, [], ◌∷◌, ◌++◌, arith, ltb, length,
  length-append, Bool-cases, inl, inr, ◌⊎◌,
}
use commissioner.Common.Tlv.Store.{store-length}
use commissioner.Mdns.Avahi.{buffer_size, add_txt, add_txts}

-- The records, newest first.
abbrev pub laid_out : List (List ℕ) → List (List ℕ × List ℕ) → List (List ℕ)
laid_out last [] = last
laid_out last ((name, value) ∷ pairs) = laid_out ((name ++ b'=' ∷ value) ∷ last) pairs

module _ (list_size text_at label_max : ℕ) where
  add_txt-fits :
      (buffer : List ℕ) (used : ℕ) (name value : List ℕ)
      → text_at + 2 ≤ list_size
      → length buffer ≡ buffer_size list_size text_at label_max
      → (add_txt list_size text_at label_max buffer used name value ≡ some none)
        ⊎ ((buffer' : List ℕ) × (used' : ℕ) × (add_txt list_size text_at label_max buffer used name
                value
              ≡ some (some (buffer', used')))
            × (length buffer' ≡ length buffer))
  unfolding add_txt
  add_txt-fits buffer used name value h l =
      elim (Bool-cases (
        ltb (used + (list_size + length name + length value))
          (buffer_size list_size text_at label_max))) [
            | inl fits ↦
                let text = name ++ b'=' ∷ value in
                let room : used + text_at + length (text ++ 0 ∷ []) ≤ length buffer = ground (
                  arith,
                  h,
                  l,
                  fits,
                  length-append text (0 ∷ []),
                  length-append name (b'=' ∷ value),
                ) in
                let (buffer', e, same) =
                  store-length buffer (used + text_at) (text ++ 0 ∷ []) room in
                inr (
                  buffer',
                  (used + text_at + length text + 7) / 8 * 8,
                  rw (fits, e, add_txt) refl,
                  same,
                )
            | inr full ↦ inl (rw (full, add_txt) refl)
          ]

  -- Let the text of a list element start two bytes before its end or earlier, and let the array have
  -- its size. Then whatever the pairs are, every record is written inside the array: the loop ends
  -- with all of them laid out, newest first, or with the report that one does not fit.
  pub add_txts-fits :
      (buffer : List ℕ) (used : ℕ) (last : List (List ℕ)) (pairs : List (List ℕ × List ℕ))
      → text_at + 2 ≤ list_size
      → length buffer ≡ buffer_size list_size text_at label_max
      → (add_txts list_size text_at label_max buffer used last pairs ≡ some none)
        ⊎ (add_txts list_size text_at label_max buffer used last pairs
            ≡ some (some (laid_out last pairs)))
  unfolding add_txts
  add_txts-fits buffer used last [] h l = inr refl
  add_txts-fits buffer used last ((name, value) ∷ pairs) h l =
      elim (add_txt-fits buffer used name value h l) [
        | inl full ↦ inl (rw (full, add_txts) refl)
        | inr (buffer', used', e, same) ↦
            elim (add_txts-fits buffer' used' ((name ++ b'=' ∷ value) ∷ last) pairs h (same ∙ l)) [
              | inl full ↦ inl (rw (e, add_txts) full)
              | inr whole ↦ inr (rw (e, add_txts) whole)
            ]
      ]
