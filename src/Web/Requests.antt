-- ===== src/Web/Requests.antt =====
-- wpan_service.cpp: what calls a request makes, and what it answers.
use mathlib.Core.List.{append-nil}
use commissioner.Prelude.{
  ℕ, zero, suc, ◌-◌, ◌%◌, ◌^◌, ◌≡◌, ◌<◌, ◌≤◌, refl, Bool, true, false, none, some, List, [], ◌∷◌,
  ◌++◌, arith, ==_iff, sym, ◌∙◌, ◌==◌, if◌then◌else◌, length, drop, take,
}
use commissioner.Pskc.{Pskc, salt_prefix}
use commissioner.Pskc.Derivation.{T, compute_pskc-T}
use commissioner.Pskc.Overflow.{compute_pskc_overflow}
use commissioner.Utils.Hex.{hex2bytes, bytes2hex}
use commissioner.Web.{
  WpanNetworkInfo, network_key, network_panid, network_xpanid, network_pskc, Call, leave, set_data,
  set_string, join, form, add_gateway, leave_failed, set_failed, join_failed, set_gateway_failed,
  form_failed, JoinRequest, FormRequest, network_at, Outcome, handle_join_network_request,
  pskc_text, handle_form_network_request,
}

beyond :
    (networks : List WpanNetworkInfo) (index : ℕ)
    → length networks ≤ index
    → network_at networks index ≡ none
unfolding network_at
beyond [] index h = refl
beyond (n ∷ networks) index h =
    let there : (index == 0) ≡ false = ground (arith, h) in
    rw (there, beyond networks (index - 1) (omega (arith, h))) refl

drop_all : (n : ℕ) (xs : List ℕ) → length xs ≤ n → drop n xs ≡ []
drop_all zero [] h = refl
drop_all zero (x ∷ xs) h = absurd (omega (arith, h))
drop_all (suc n) [] h = refl
drop_all (suc n) (x ∷ xs) h = drop_all n xs (omega (arith, h))

module _ (prf : List ℕ → List ℕ → List ℕ) (iterations : ℕ) where
  -- The first 16 bytes of block 1 of PBKDF2, as text.
  abbrev pub pbkdf_text : List ℕ → FormRequest → List ℕ
  pbkdf_text id r = bytes2hex (
      take 16 (
        T prf r.passphrase ((salt_prefix ++ (id ++ r.network_name)) ++ (0 ∷ 0 ∷ 0 ∷ 1 ∷ []))
          (iterations - 1)))

  pskc_text_lem :
      (psk : Pskc) (memory id : List ℕ) (r : FormRequest)
      → length memory ≡ 8
      → hex2bytes r.ext_pan_id 8 ≡ record { ret = some 8; stored = id }
      → length id ≡ 8
      → 1 ≤ length r.network_name
      → length r.network_name ≤ 16
      → pskc_text prf iterations psk memory r ≡ some (pbkdf_text id r)
  unfolding pskc_text
  pskc_text_lem psk memory id r hm he hi h1 h16 =
      let v = compute_pskc-T prf iterations psk id r.network_name r.passphrase hi h1 h16 in
      let whole = drop_all (length id) memory (omega (arith, hm, hi)) in
      rw (he, whole, append-nil id, v.1, v.2) refl

module _ (answer : List Call → Call → ℕ) where
  -- The calls of a plan, each with its error, are made in their order up to the first that is refused:
  -- its error is the answer, and 0 if there is none.
  pub data Runs : List (Call × ℕ) → List Call → Outcome → Type 0 where
    ended : {done : List Call} → Runs [] done (some (0, done))
    refused :
        {c : Call} {e : ℕ} {plan : List (Call × ℕ)} {done : List Call}
        → ¬ (answer done c ≡ 0)
        → Runs ((c, e) ∷ plan) done (some (e, c ∷ done))
    accepted :
        {c : Call} {e : ℕ} {plan : List (Call × ℕ)} {done : List Call} {o : Outcome}
        → answer done c ≡ 0
        → Runs plan (c ∷ done) o
        → Runs ((c, e) ∷ plan) done o

  contradiction : false ≡ true → ⊥
  contradiction h = cc

  choice-Runs :
      (b : Bool) {c : Call} {e : ℕ} {plan : List (Call × ℕ)} {o : Outcome} {done : List Call}
      → (answer done c == 0) ≡ b
      → Runs plan (c ∷ done) o
      → Runs ((c, e) ∷ plan) done (if b then o else some (e, c ∷ done))
  choice-Runs true {c = c} {done = done} same h = accepted ((==_iff (answer done c) 0).0 same) h
  choice-Runs false {c = c} {done = done} same h =
      refused (λ z. contradiction (sym same ∙ (==_iff (answer done c) 0).1 z))

  step-Runs :
      {c : Call} {e : ℕ} {plan : List (Call × ℕ)} {o : Outcome} {done : List Call}
      → Runs plan (c ∷ done) o
      → Runs ((c, e) ∷ plan) done (if answer done c == 0 then o else some (e, c ∷ done))
  step-Runs {c = c} {done = done} h = choice-Runs (answer done c == 0) refl h

  -- With an index in range a join request makes its calls in their order, up to the first that is
  -- refused.
  pub join_lem :
      (networks : List WpanNetworkInfo) (r : JoinRequest) (done : List Call) (n : WpanNetworkInfo)
      → network_at networks r.index ≡ some n
      → Runs
          ((leave, leave_failed)
            ∷ (set_data network_key r.key, set_failed)
            ∷ (join n, join_failed)
            ∷ (add_gateway r.prefix r.default_route, set_gateway_failed)
            ∷ [])
          done
          (handle_join_network_request answer networks (some r) done)
  unfolding handle_join_network_request
  join_lem networks r done n h = rw h (step-Runs (step-Runs (step-Runs (step-Runs ended))))

  -- The next calls are accepted.
  abbrev pub Accepts : List Call → List Call → Type 0
  Accepts [] done = Unit
  Accepts (c ∷ calls) done = (answer done c ≡ 0) × Accepts calls (c ∷ done)

  -- A join request whose index is no index of the array of networks reads beyond the array, once
  -- wpantund has accepted to leave the network and to set the key.
  pub join_overrun :
      (networks : List WpanNetworkInfo) (r : JoinRequest) (done : List Call)
      → length networks ≤ r.index
      → Accepts (leave ∷ set_data network_key r.key ∷ []) done
      → handle_join_network_request answer networks (some r) done ≡ none
  unfolding handle_join_network_request
  join_overrun networks r done h (a1, (a2, _)) = rw (a1, a2, beyond networks r.index h) refl

  module _ (prf : List ℕ → List ℕ → List ℕ) (iterations : ℕ) where
    form-Runs :
        (psk : Pskc) (memory : List ℕ) (r : FormRequest) (done : List Call) (text : List ℕ)
        → pskc_text prf iterations psk memory r ≡ some text
        → Runs
            ((leave, leave_failed)
              ∷ (set_data network_key r.key, set_failed)
              ∷ (set_string network_panid r.pan_id, set_failed)
              ∷ (set_data network_xpanid r.ext_pan_id, set_failed)
              ∷ (set_data network_pskc text, set_failed)
              ∷ (form r.network_name (r.channel % 2 ^ 16), form_failed)
              ∷ (add_gateway r.prefix r.default_route, set_gateway_failed)
              ∷ [])
            done
            (handle_form_network_request answer prf iterations psk memory (some r) done)
    unfolding handle_form_network_request
    form-Runs psk memory r done text h =
        rw h
          (step-Runs (step-Runs (step-Runs (step-Runs (step-Runs (step-Runs (step-Runs ended)))))))

    -- A form request with an extended PAN ID that `Hex2Bytes` reads as eight bytes, in digits of either
    -- case, and a network name of 1 to 16 characters makes its calls in their order, up to the first that wpantund refuses: it leaves the
    -- network, sets the key, the PAN ID, the extended PAN ID and the PSKc, which is the text of the first
    -- 16 bytes of block 1 of PBKDF2, forms the network and adds the gateway. The answer is the error of
    -- the refused call, and 0 if there is none.
    pub form_lem :
        (psk : Pskc) (memory id : List ℕ) (r : FormRequest) (done : List Call)
        → length memory ≡ 8
        → hex2bytes r.ext_pan_id 8 ≡ record { ret = some 8; stored = id }
        → length id ≡ 8
        → 1 ≤ length r.network_name
        → length r.network_name ≤ 16
        → Runs
            ((leave, leave_failed)
              ∷ (set_data network_key r.key, set_failed)
              ∷ (set_string network_panid r.pan_id, set_failed)
              ∷ (set_data network_xpanid r.ext_pan_id, set_failed)
              ∷ (set_data network_pskc (pbkdf_text prf iterations id r), set_failed)
              ∷ (form r.network_name (r.channel % 2 ^ 16), form_failed)
              ∷ (add_gateway r.prefix r.default_route, set_gateway_failed)
              ∷ [])
            done
            (handle_form_network_request answer prf iterations psk memory (some r) done)
    form_lem psk memory id r done hm he hi h1 h16 =
        form-Runs psk memory r done (pbkdf_text prf iterations id r)
          (pskc_text_lem prf iterations psk memory id r hm he hi h1 h16)

    -- A form request with a network name of more than 16 characters, whose first four calls wpantund
    -- accepts, makes the key's generator copy beyond its array.
    pub form_overflow :
        (psk : Pskc) (memory : List ℕ) (r : FormRequest) (done : List Call)
        → 16 < length r.network_name
        → Accepts
            (leave
              ∷ set_data network_key r.key
              ∷ set_string network_panid r.pan_id
              ∷ set_data network_xpanid r.ext_pan_id
              ∷ [])
            done
        → handle_form_network_request answer prf iterations psk memory (some r) done ≡ none
    unfolding handle_form_network_request pskc_text
    form_overflow psk memory r done h (a1, (a2, (a3, (a4, _)))) =
        rw
          (a1, a2, a3, a4, compute_pskc_overflow prf iterations psk _ r.network_name r.passphrase h)
          refl
