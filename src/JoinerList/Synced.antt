-- ===== src/JoinerList/Synced.antt =====
-- joiner_list_api.hpp: an invariant of the JSON array, the vector and the filter.
use commissioner.Prelude.{
  ℕ, zero, suc, ◌+◌, ◌<◌, ◌≡◌, ◌⊎◌, inl, inr, refl, subst, ◌∙◌, Bool, true, false, none, some, List,
  [], ◌∷◌, ◌++◌, arith, if◌then◌else◌, get_or, replicate, All, Bool-cases, Option-cases,
}
use commissioner.Prelude.Chain.{◌>>=◌}
use commissioner.Utils.SteeringData.{SteeringData, clear, compute_steering_data, compute_hash_mac}
use commissioner.Utils.SteeringData.Filter.{IsFilter, Matches, compute_bloom_filter_lem}
use commissioner.JoinerList.Json.{Jansson, same_text, psk_key, eui64_key}
use commissioner.JoinerList.{
  JoinerInstance, Cell, live, freed, Found, missing, at, eui64_bytes, erase_at, JoinerList, rebuild,
  find_eui, take_out,
}

-- The vector without its first entry for an EUI-64, and whether there is one.
abbrev pub without : List ℕ → List JoinerInstance → List JoinerInstance
without eui [] = []
without eui (i ∷ is) = if same_text i.eui64_ascii eui then is else i ∷ without eui is

abbrev pub has_eui : List ℕ → List JoinerInstance → Bool
has_eui eui [] = false
has_eui eui (i ∷ is) = if same_text i.eui64_ascii eui then true else has_eui eui is

abbrev pub blank : SteeringData
blank = record { bloom_filter = replicate 16 0; filter_length = 15 }

get_or-replicate : (n i v : ℕ) → v < 256 → get_or (replicate n v) i 0 < 256
get_or-replicate zero i v h = omega arith
get_or-replicate (suc n) zero v h = h
get_or-replicate (suc n) (suc i) v h = get_or-replicate n i v h

pub blank-IsFilter : IsFilter blank
blank-IsFilter = record {
  size = refl;
  fits = omega arith;
  used = omega arith;
  bytes = λ i. get_or-replicate 16 i 0 (omega arith);
}

module _ (sha256 : List ℕ → List ℕ) where
  abbrev pub id_of : JoinerInstance → List ℕ
  id_of i = compute_hash_mac sha256 i.eui64_bin

  pub csd_lem :
      (s : SteeringData) (i : JoinerInstance)
      → IsFilter s
      → (s' : SteeringData) × (compute_steering_data sha256 s false i.eui64_bin ≡ some s')
        × IsFilter s'
        × (s'.filter_length ≡ s.filter_length)
        × Matches s' (id_of i)
        × ((other : List ℕ) → Matches s other → Matches s' other)
  unfolding compute_steering_data
  csd_lem s i v = compute_bloom_filter_lem s (id_of i) v

module _ (sha256 : List ℕ → List ℕ) (J : Jansson) where
  open J use {Json, object_get, string_value, string, get-set_self, get-set_ne, value-string}

  pub rebuild_lem :
      (s : SteeringData) (is : List JoinerInstance)
      → IsFilter s
      → (s' : SteeringData) × (rebuild sha256 J s is ≡ some s')
        × IsFilter s'
        × (s'.filter_length ≡ s.filter_length)
        × All (λ i. Matches s' (id_of sha256 i)) is
        × ((other : List ℕ) → Matches s other → Matches s' other)
  unfolding rebuild
  rebuild_lem s [] v = (s, refl, v, refl, tt, λ other m. m)
  rebuild_lem s (i ∷ is) v =
      let (s1, e1, v1, l1, m1, k1) = csd_lem sha256 s i v in
      let (s2, e2, v2, l2, m2, k2) = rebuild_lem s1 is v1 in
      (s2, rw e1 e2, v2, l2 ∙ l1, (k2 (id_of sha256 i) m1, m2), λ other m. k2 other (k1 other m))

  pub rebuild-append :
      (s s' : SteeringData) (is js : List JoinerInstance)
      → rebuild sha256 J s is ≡ some s'
      → rebuild sha256 J s (is ++ js) ≡ rebuild sha256 J s' js
  unfolding rebuild
  rebuild-append s s' [] js e = ground arith
  rebuild-append s s' (i ∷ is) js e =
      elim (Option-cases (compute_steering_data sha256 s false i.eui64_bin)) [
        | inl n ↦ absurd (impossible n)
        | inr (s1, e1) ↦ rw e1 (rebuild-append s1 s' is js (rw e1 at e))
      ]
    where
      impossible : compute_steering_data sha256 s false i.eui64_bin ≡ none → ⊥
      impossible n = let bad = rw n at e in cc bad

  -- An element of the array and an entry of the vector hold the same two texts.
  pub record SameEntry (j : Json) (i : JoinerInstance) : Type 0 where
    pub psk_text : (object_get j psk_key >>= string_value) ≡ some i.pskd_ascii
    pub eui_text : (object_get j eui64_key >>= string_value) ≡ some i.eui64_ascii
    pub decoded : i.eui64_bin ≡ eui64_bytes i.eui64_ascii

  abbrev pub Agrees : List (Cell Json) → List JoinerInstance → Type 0
  Agrees [] [] = Unit
  Agrees [] (i ∷ is) = ⊥
  Agrees (freed ∷ cells) is = ⊥
  Agrees (live j ∷ cells) [] = ⊥
  Agrees (live j ∷ cells) (i ∷ is) = SameEntry j i × Agrees cells is

  pub Agrees-append :
      (cells : List (Cell Json)) (is : List JoinerInstance) (j : Json) (i : JoinerInstance)
      → Agrees cells is
      → SameEntry j i
      → Agrees (cells ++ live j ∷ []) (is ++ i ∷ [])
  Agrees-append [] [] j i a e = (e, tt)
  Agrees-append [] (k ∷ is) j i a e = absurd a
  Agrees-append (freed ∷ cells) is j i a e = absurd a
  Agrees-append (live x ∷ cells) [] j i a e = absurd a
  Agrees-append (live x ∷ cells) (k ∷ is) j i a e = (a.0, Agrees-append cells is j i a.1 e)

  -- The search finds the first entry for the EUI-64, at one index in both containers.
  data Search (eui : List ℕ) (cells : List (Cell Json)) (is : List JoinerInstance) (k : ℕ)
      : Type 0 where
    absent :
        find_eui sha256 J cells eui k ≡ some missing
        → has_eui eui is ≡ false
        → without eui is ≡ is
        → Search eui cells is k
    present :
        (n : ℕ) (cells' : List (Cell Json))
        → find_eui sha256 J cells eui k ≡ some (at (k + n))
        → has_eui eui is ≡ true
        → erase_at cells n ≡ some cells'
        → erase_at is n ≡ some (without eui is)
        → Agrees cells' (without eui is)
        → Search eui cells is k

  find_step :
      (eui : List ℕ) (j : Json) (i : JoinerInstance) (cells : List (Cell Json)) (k : ℕ)
      → SameEntry j i
      → find_eui sha256 J (live j ∷ cells) eui k
        ≡ (if same_text i.eui64_ascii eui then some (at k) else find_eui sha256 J cells eui (k + 1))
  unfolding find_eui
  find_step eui j i cells k e = rw (e.eui_text, find_eui)

  search_lem :
      (eui : List ℕ) (cells : List (Cell Json)) (is : List JoinerInstance) (k : ℕ)
      → Agrees cells is
      → Search eui cells is k
  unfolding erase_at
  search_lem eui [] [] k a = absent (unfold find_eui in refl) refl refl
  search_lem eui [] (i ∷ is) k a = absurd a
  search_lem eui (freed ∷ cells) is k a = absurd a
  search_lem eui (live j ∷ cells) [] k a = absurd a
  search_lem eui (live j ∷ cells) (i ∷ is) k a = elim (Bool-cases (same_text i.eui64_ascii eui)) [
    | inl hit ↦
        let e : k ≡ k + 0 = omega arith in
        let w : is ≡ without eui (i ∷ is) = rw hit in
        present 0 cells (find_step eui j i cells k a.0 ∙ rw (hit, ← e)) (rw hit) refl (rw hit)
          (subst (Agrees cells) w a.1)
    | inr miss ↦ elim (search_lem eui cells is (k + 1) a.1) [
      | absent f h w ↦ absent (find_step eui j i cells k a.0 ∙ rw miss f) (rw miss h) (rw (miss, w))
      | present n cells' f h ec ev r ↦
          let e : k + 1 + n ≡ k + suc n = omega arith in
          let w : i ∷ without eui is ≡ without eui (i ∷ is) = rw miss in
          present (suc n) (live j ∷ cells') (find_step eui j i cells k a.0 ∙ rw (miss, ← e) f)
            (rw miss h) (rw ec) (rw (ev, miss)) (subst (Agrees (live j ∷ cells')) w (a.0, r))
    ]
  ]

  -- The array, the vector and the filter say the same, and the filter is one of 15 bytes.
  pub record IsSynced (l : JoinerList sha256 J) : Type 0 where
    pub agrees : Agrees l.array l.vector
    pub built : rebuild sha256 J blank l.vector ≡ some l.steering
    pub filter : IsFilter l.steering
    pub fifteen : l.steering.filter_length ≡ 15

  -- Taking the first entry for an EUI-64 out of both containers keeps them in step.
  pub take_out_lem :
      (l : JoinerList sha256 J) (eui : List ℕ)
      → Agrees l.array l.vector
      → (found : Found) × (cells : List (Cell Json)) × (find_eui sha256 J l.array eui 0
          ≡ some found)
        × (take_out sha256 J l found
            ≡ some
                (record l { array = cells; vector = without eui l.vector }, has_eui eui l.vector))
        × Agrees cells (without eui l.vector)
        × ((has_eui eui l.vector ≡ true) ⊎ ((cells ≡ l.array) × (without eui l.vector ≡ l.vector)))
  unfolding take_out
  take_out_lem l eui a = elim (search_lem eui l.array l.vector 0 a) [
    | absent f h w ↦ (missing, l.array, f, rw (h, w), rw w a, inr (refl, w))
    | present n cells f h ec ev r ↦
        let e : 0 + n ≡ n = omega arith in (at n, cells, rw e at f, rw (ec, ev, h), r, inl h)
  ]

  clear-blank : (s : SteeringData) → s.filter_length ≡ 15 → clear s ≡ blank
  unfolding clear
  clear-blank s e = rw e

  -- Either way of `ComputeSteering` computes the filter of the whole vector.
  pub steering_lem :
      (s : SteeringData) (is : List JoinerInstance) (back : JoinerInstance) (recalc : Bool)
      → rebuild sha256 J blank is ≡ some s
      → IsFilter s
      → s.filter_length ≡ 15
      → (js : List JoinerInstance) → (recalc ≡ true) ⊎ (js ≡ is)
      → (s' : SteeringData) × ((if recalc
            then rebuild sha256 J (clear s) (js ++ back ∷ [])
            else compute_steering_data sha256 s false back.eui64_bin)
          ≡ some s')
        × (rebuild sha256 J blank (js ++ back ∷ []) ≡ some s')
        × IsFilter s'
        × (s'.filter_length ≡ 15)
  steering_lem s is back true b v len js how =
      let (s', e, v', l', m, k) = rebuild_lem blank (js ++ back ∷ []) blank-IsFilter in
      (s', rw (clear-blank s len) e, e, v', l')
  steering_lem s is back false b v len js (inl how) = absurd (cc)
  steering_lem s is back false b v len js (inr how) =
      let (s', e, v', l', m, k) = csd_lem sha256 s back v in
      let whole : rebuild sha256 J blank (js ++ back ∷ []) ≡ some s' =
        rw how (rebuild-append blank s is (back ∷ []) b ∙ last s s' back e) in
      (s', e, whole, v', l' ∙ len)
    where
      last :
          (t t' : SteeringData) (i : JoinerInstance)
          → compute_steering_data sha256 t false i.eui64_bin ≡ some t'
          → rebuild sha256 J t (i ∷ []) ≡ some t'
      last t t' i e = unfold rebuild in rw e
