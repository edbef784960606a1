-- ===== src/Web.antt =====
-- lib/borderrouter/src/web/web-service/wpan_service.cpp: the four requests that change the network. A
-- request is what the JSON reader got out of the text, with its texts as `c_str` gives them, and `none`
-- for a text it does not parse; the answer
-- is the number behind "error". The controller of wpantund is what it answers to a call after the
-- calls before it, the newest first; `none` of a request is an access beyond an array.
pub mod Requests
use commissioner.Prelude.{
  ℕ, Bool, Option, none, some, List, [], ◌∷◌, ◌++◌, ◌-◌, ◌%◌, ◌^◌, ◌==◌, if◌then◌else◌, length,
  drop,
}
use commissioner.Prelude.Chain.{◌>>=◌}
use commissioner.Utils.Hex.{hex2bytes, bytes2hex}
use commissioner.Pskc.{Pskc, compute_pskc}

-- An element of `mNetworks`, with the fields that a request uses.
pub record WpanNetworkInfo : Type 0 where
  pub network_name : List ℕ
  pub channel : ℕ
  pub ext_pan_id : ℕ
  pub pan_id : ℕ

-- The names behind kWPANTUNDProperty_, as the requests use them.
pub data Property : Type 0 where
  network_key network_panid network_xpanid network_pskc : Property

-- The calls of `WPANController`, with what they are given.
pub data Call : Type 0 where
  leave : Call
  set_data set_string : Property → List ℕ → Call
  join : WpanNetworkInfo → Call
  form : List ℕ → ℕ → Call
  add_gateway : List ℕ → Bool → Call
  remove_gateway : List ℕ → Call

abbrev pub parse_request_failed : ℕ
parse_request_failed = 5

abbrev pub leave_failed : ℕ
leave_failed = 4

abbrev pub set_failed : ℕ
set_failed = 6

abbrev pub join_failed : ℕ
join_failed = 7

abbrev pub set_gateway_failed : ℕ
set_gateway_failed = 8

abbrev pub form_failed : ℕ
form_failed = 9

pub record JoinRequest : Type 0 where
  pub index : ℕ
  pub key : List ℕ
  pub prefix : List ℕ
  pub default_route : Bool

pub record FormRequest : Type 0 where
  pub key : List ℕ
  pub prefix : List ℕ
  pub channel : ℕ
  pub network_name : List ℕ
  pub passphrase : List ℕ
  pub pan_id : List ℕ
  pub ext_pan_id : List ℕ
  pub default_route : Bool

-- `mNetworks[index]`, of the whole array; an index from 2 ^ 31 on is negative as an `int`, and beyond
-- the array too.
unfoldable pub network_at : List WpanNetworkInfo → ℕ → Option WpanNetworkInfo
network_at [] index = none
network_at (n ∷ networks) index = if index == 0 then some n else network_at networks (index - 1)

-- The code behind "error" and the calls that were made, the newest first.
abbrev pub Outcome : Type 0
Outcome = Option (ℕ × List Call)

module _ (prf : List ℕ → List ℕ → List ℕ) (iterations : ℕ) where
  -- The text of the key, from the memory of `psk` and of `extPanIdBytes`; what `Hex2Bytes` returns
  -- is not looked at.
  unfoldable pub pskc_text : Pskc → List ℕ → FormRequest → Option (List ℕ)
  pskc_text psk memory r =
      let stored = (hex2bytes r.ext_pan_id 8).stored in
      compute_pskc prf iterations psk (stored ++ drop (length stored) memory) r.network_name
        r.passphrase
      >>= λ p. some (bytes2hex p.pskc)

module _ (answer : List Call → Call → ℕ) where
  -- `VerifyOrExit` of a call, which goes on with `next`.
  unfoldable pub verify : Call → ℕ → (List Call → Outcome) → List Call → Outcome
  verify call failure next done =
      if answer done call == 0 then next (call ∷ done) else some (failure, call ∷ done)

  abbrev pub ok : List Call → Outcome
  ok done = some (0, done)

  unfoldable pub handle_join_network_request :
      List WpanNetworkInfo → Option JoinRequest → List Call → Outcome
  unfolding verify network_at
  handle_join_network_request networks none done = some (parse_request_failed, done)
  handle_join_network_request networks (some r) done =
      verify leave leave_failed
        (verify (set_data network_key r.key) set_failed (λ before.
          network_at networks r.index >>= λ n.
          verify (join n) join_failed
            (verify (add_gateway r.prefix r.default_route) set_gateway_failed ok) before))
        done

  unfoldable pub handle_add_prefix_request : Option (List ℕ × Bool) → List Call → Outcome
  unfolding verify
  handle_add_prefix_request none done = some (parse_request_failed, done)
  handle_add_prefix_request (some (prefix, default_route)) done =
      verify (add_gateway prefix default_route) set_gateway_failed ok done

  unfoldable pub handle_delete_prefix_request : Option (List ℕ) → List Call → Outcome
  unfolding verify
  handle_delete_prefix_request none done = some (parse_request_failed, done)
  handle_delete_prefix_request (some prefix) done =
      verify (remove_gateway prefix) set_gateway_failed ok done

  module _ (prf : List ℕ → List ℕ → List ℕ) (iterations : ℕ) where
    unfoldable pub handle_form_network_request :
        Pskc → List ℕ → Option FormRequest → List Call → Outcome
    unfolding verify
    handle_form_network_request psk memory none done = some (parse_request_failed, done)
    handle_form_network_request psk memory (some r) done =
        verify leave leave_failed
          (verify (set_data network_key r.key) set_failed (
            verify (set_string network_panid r.pan_id) set_failed (
              verify (set_data network_xpanid r.ext_pan_id) set_failed (λ before.
                pskc_text prf iterations psk memory r >>= λ text.
                verify (set_data network_pskc text) set_failed
                  (verify (form r.network_name (r.channel % 2 ^ 16)) form_failed
                    (verify (add_gateway r.prefix r.default_route) set_gateway_failed ok))
                  before))))
          done
