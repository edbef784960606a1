-- ===== src/Examples/Requests.antt =====
-- The theorems on the requests of the web service.
use commissioner.Prelude.{ℕ, ◌≡◌, refl, true, none, some, List, [], ◌∷◌, ◌++◌, replicate, arith}
use commissioner.Web.{
  WpanNetworkInfo, network_key, network_panid, network_xpanid, network_pskc, Call, leave, set_data,
  set_string, join, form, add_gateway, remove_gateway, leave_failed, set_failed, set_gateway_failed,
  form_failed, JoinRequest, FormRequest, handle_join_network_request, handle_form_network_request,
}
use commissioner.Web.Requests.{Runs, pbkdf_text, form_lem, form_overflow, join_overrun}
use commissioner.Utils.Hex.{hex2bytes, digit_value}
use commissioner.Examples.Tools.{no_key, prf}

-- A controller that accepts all but the forming of a network.
abbrev refuse_form : List Call → Call → ℕ
refuse_form done (form name channel) = 1
refuse_form done leave = 0
refuse_form done (set_data property value) = 0
refuse_form done (set_string property value) = 0
refuse_form done (join n) = 0
refuse_form done (add_gateway prefix default_route) = 0
refuse_form done (remove_gateway prefix) = 0

abbrev pair_of_cases : List ℕ
pair_of_cases = b'a' ∷ b'A' ∷ b'a' ∷ b'A' ∷ []

abbrev mixed_text : List ℕ
mixed_text = pair_of_cases ++ (pair_of_cases ++ (pair_of_cases ++ pair_of_cases))

mixed_lem : hex2bytes mixed_text 8 ≡ record { ret = some 8; stored = replicate 8 0xaa }
unfolding hex2bytes digit_value
mixed_lem = refl

abbrev form_request : List ℕ → FormRequest
form_request name = record {
  key = 5 ∷ [];
  prefix = [];
  channel = 15;
  network_name = name;
  passphrase = 9 ∷ [];
  pan_id = b'1' ∷ [];
  ext_pan_id = mixed_text;
  default_route = true;
}

abbrev join_request : JoinRequest
join_request = record { index = 1; key = 5 ∷ []; prefix = []; default_route = true }

abbrev scanned : WpanNetworkInfo
scanned = record { network_name = b'a' ∷ []; channel = 15; ext_pan_id = 7; pan_id = 3 }

abbrev small_request : FormRequest
small_request = form_request (b'a' ∷ [])

join_overrun_example :
    handle_join_network_request refuse_form (scanned ∷ []) (some join_request) [] ≡ none
join_overrun_example =
    join_overrun refuse_form (scanned ∷ []) join_request [] (omega arith) (refl, (refl, tt))

form_overflow_example :
    handle_form_network_request refuse_form prf 3 no_key
      (replicate 8 0)
      (some (form_request (replicate 17 b'a')))
      []
    ≡ none
form_overflow_example =
    form_overflow refuse_form prf 3 no_key (replicate 8 0) (form_request (replicate 17 b'a')) []
      (omega arith) (refl, (refl, (refl, (refl, tt))))

form_lem_example :
    Runs refuse_form
      ((leave, leave_failed)
        ∷ (set_data network_key (5 ∷ []), set_failed)
        ∷ (set_string network_panid (b'1' ∷ []), set_failed)
        ∷ (set_data network_xpanid mixed_text, set_failed)
        ∷ (set_data network_pskc (pbkdf_text prf 3 (replicate 8 0xaa) small_request), set_failed)
        ∷ (form (b'a' ∷ []) 15, form_failed)
        ∷ (add_gateway [] true, set_gateway_failed)
        ∷ [])
      []
      (handle_form_network_request refuse_form prf 3 no_key (replicate 8 0) (some small_request) [])
form_lem_example =
    form_lem refuse_form prf 3 no_key (replicate 8 0) (replicate 8 0xaa) small_request [] refl
      mixed_lem refl (omega arith) (omega arith)
