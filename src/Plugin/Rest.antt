-- ===== src/Plugin/Rest.antt =====
-- src/comm_rest_api.cpp, with `ResetCommissioner` of inc/comm.hpp: the handlers of the REST
-- interface. The HTTP framework chooses the route and hands over the body and the path; `none` is
-- undefined behaviour. `object_dumps` is `json_dumps` of an object.
pub mod Mark
pub mod RoundTrip
use commissioner.Prelude.{
  ℕ, zero, suc, Bool, true, false, Option, none, some, List, [], ◌∷◌, ◌++◌, leb, ◌==◌,
  if◌then◌else◌, length, drop,
}
use commissioner.Prelude.Chain.{◌>>=◌}
use commissioner.Pskc.{Pskc}
use commissioner.JoinerList.{
  JoinerList, StatusCode, success_ok, client_error, write, edit, read, clear_all, remove,
}
use commissioner.JoinerList.Json.{Jansson}
use commissioner.Plugin.Status.{Status, get}
use commissioner.Plugin.Parameters.{CommissionerArgs, clear_args, parameters_change}

pub record Request : Type 0 where
  pub body : List ℕ
  pub path : List ℕ

-- The handlers that `CommCreate` registers, by method and resource.
pub data Route : Type 0 where
  post_network get_network delete_network : Route
  post_joiners put_joiner delete_joiners delete_joiner get_joiners : Route

-- The status of an answer, and the body where the handler sets one.
pub record Response : Type 0 where
  pub code : StatusCode
  pub content : Option (List ℕ)

-- The text that a C string holds: the bytes before the first zero.
unfoldable pub c_str : List ℕ → List ℕ
c_str [] = []
c_str (b ∷ bytes) = let rest = c_str bytes in if b == 0 then [] else b ∷ rest

-- `path.c_str() + 9`; the final zero can still be read.
unfoldable pub path_text : List ℕ → Option (List ℕ)
unfolding c_str
path_text path = if leb 9 (length path) then some (c_str (drop 9 path)) else none

abbrev pub is_empty : List ℕ → Bool
is_empty [] = true
is_empty (b ∷ bytes) = false

abbrev pub parameters_label : List ℕ
parameters_label =
    b'P' ∷ b'a' ∷ b'r' ∷ b'a' ∷ b'm' ∷ b'e' ∷ b't' ∷ b'e' ∷ b'r' ∷ b's' ∷ b':' ∷ b' ' ∷ []

abbrev pub status_label : List ℕ
status_label =
    b',' ∷ b' ' ∷ b'C' ∷ b'o' ∷ b'm' ∷ b'm' ∷ b'i' ∷ b's' ∷ b's' ∷ b'i' ∷ b'o' ∷ b'n' ∷ b'e' ∷ b'r'
    ∷ b' ' ∷ b's' ∷ b't' ∷ b'a' ∷ b't' ∷ b'u' ∷ b's' ∷ b':' ∷ b' ' ∷ []

module _ (sha256 : List ℕ → List ℕ) (J : Jansson) where
  unfoldable pub joiners_write :
      JoinerList sha256 J → Request → Option (JoinerList sha256 J × StatusCode)
  unfolding c_str
  joiners_write l req =
      if is_empty req.body then some (l, client_error) else write sha256 J l (c_str req.body)

  unfoldable pub joiners_edit :
      JoinerList sha256 J → Request → Option (JoinerList sha256 J × StatusCode)
  unfolding c_str path_text
  joiners_edit l req =
      if is_empty req.body
      then some (l, client_error)
      else (path_text req.path >>= λ eui. edit sha256 J l (c_str req.body) eui)

  unfoldable pub joiners_read : JoinerList sha256 J → Option (List ℕ)
  unfolding c_str
  joiners_read l = read sha256 J l >>= λ text. some (c_str text)

  unfoldable pub joiners_clear : JoinerList sha256 J → Option (JoinerList sha256 J × StatusCode)
  joiners_clear l = clear_all sha256 J l >>= λ l'. some (l', success_ok)

  -- The result of `Remove` is dropped.
  unfoldable pub joiners_remove :
      JoinerList sha256 J → Request → Option (JoinerList sha256 J × StatusCode)
  unfolding path_text
  joiners_remove l req =
      path_text req.path >>= λ eui. remove sha256 J l eui >>= λ (l', status). some (l', success_ok)

  module _ (integer_value : J.Json → Option ℕ) (object_update : J.Json → J.Json → J.Json)
      (object_dumps : J.Json → List ℕ) (prf : List ℕ → List ℕ → List ℕ) (iterations : ℕ) where
    -- What the handlers share of the plugin.
    pub record Service : Type 0 where
      pub joiner_list : JoinerList sha256 J
      pub arguments : CommissionerArgs J integer_value object_update
      pub status : Status (List ℕ)

    unfoldable pub network_write : Pskc → Service → Request → Option (Service × StatusCode)
    unfolding c_str
    network_write pskc s req =
        if is_empty req.body
        then some (s, client_error)
        else (parameters_change J integer_value object_update prf iterations pskc s.arguments
              (c_str req.body)
            >>= λ (arguments, code). some (record s { arguments = arguments }, code))

    unfoldable pub network_read : Service → Service × List ℕ
    unfolding get c_str
    network_read s =
        let (status_string, status) = get s.status in
        (
          record s { status = status },
          parameters_label
              ++ (c_str (object_dumps s.arguments.json_obj) ++ (status_label ++ status_string)),
        )

    -- `ResetCommissioner`, up to the new manager thread.
    unfoldable pub network_delete : Service → Option (Service × StatusCode)
    unfolding clear_args
    network_delete s = clear_all sha256 J s.joiner_list >>= λ l. some (
      record s {
        arguments = clear_args J integer_value object_update s.arguments;
        joiner_list = l;
      },
      success_ok,
    )

    abbrev pub answer : Service × StatusCode → Service × Response
    answer (s, code) = (s, record { code = code; content = none })

    abbrev pub on_list :
        Service → Option (JoinerList sha256 J × StatusCode) → Option (Service × Response)
    on_list s o = o >>= λ (l, code). some (answer (record s { joiner_list = l }, code))

    unfoldable pub respond : Pskc → Service → Route → Request → Option (Service × Response)
    unfolding network_read
    respond pskc s post_network req = network_write pskc s req >>= λ a. some (answer a)
    respond pskc s get_network req =
        let (s', text) = network_read s in
        some (s', record { code = success_ok; content = some text })
    respond pskc s delete_network req = network_delete s >>= λ a. some (answer a)
    respond pskc s post_joiners req = on_list s (joiners_write s.joiner_list req)
    respond pskc s put_joiner req = on_list s (joiners_edit s.joiner_list req)
    respond pskc s delete_joiners req = on_list s (joiners_clear s.joiner_list)
    respond pskc s delete_joiner req = on_list s (joiners_remove s.joiner_list req)
    respond pskc s get_joiners req = joiners_read s.joiner_list >>= λ text.
        some (s, record { code = success_ok; content = some text })
