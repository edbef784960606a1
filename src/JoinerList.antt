-- ===== src/JoinerList.antt =====
-- inc/joiner_list_api.hpp: the list of joiners behind the /joiners resource. The JSON library is
-- the parameter `Jansson`; a C string is the list of its bytes. `none` is undefined behaviour: a
-- copy that overruns its array, a null string, or the use of a value that has been freed.
pub mod Json
pub mod Synced
pub mod Operations
pub mod Batch
pub mod Matching
use commissioner.Prelude.{
  ℕ, zero, suc, ◌+◌, ◌-◌, ◌*◌, ◌%◌, ◌^◌, Bool, true, false, Option, none, some, List, [], ◌∷◌, ◌++◌,
  ltb, leb, ◌==◌, if◌then◌else◌, length, get_elem?, drop, replicate, map,
}
use commissioner.Prelude.Chain.{◌>>=◌}
use commissioner.Utils.Hex.{hex2bytes}
use commissioner.Utils.SteeringData.{SteeringData, clear, init, compute_steering_data}
use Json.{Jansson, same_text, psk_key, eui64_key}

abbrev pub eui64_len : ℕ
eui64_len = 8

abbrev pub pskd_length : ℕ
pskd_length = 32

abbrev pub steering_default_length : ℕ
steering_default_length = 15

pub data StatusCode : Type 0 where
  success_ok client_error client_error_not_found : StatusCode

pub record JoinerInstance : Type 0 where
  pub pskd_ascii : List ℕ
  pub eui64_ascii : List ℕ
  pub eui64_bin : List ℕ

-- An element of a JSON array. `freed` is a pointer whose value has been released by another owner.
pub data Cell (Json : Type 0) : Type 0 where
  live : Json → Cell Json
  freed : Cell Json

-- `strcpy` into an array of `capacity` characters.
unfoldable pub copy_string : ℕ → List ℕ → Option (List ℕ)
copy_string capacity text = if ltb (length text) capacity then some text else none

-- `Hex2Bytes` into eight bytes that were zero, its result ignored.
unfoldable pub eui64_bytes : List ℕ → List ℕ
unfolding hex2bytes
eui64_bytes text =
    let stored = (hex2bytes text eui64_len).stored in
    stored ++ drop (length stored) (replicate eui64_len 0)

-- `push_back(JoinerInstance())` and the copies into the new element.
unfoldable pub make_instance : List ℕ → List ℕ → Option JoinerInstance
unfolding copy_string eui64_bytes
make_instance psk eui = do
  pskd_ascii ← copy_string (pskd_length + 1) psk
  eui64_ascii ← copy_string (eui64_len * 2 + 1) eui
  some (record {
    pskd_ascii = pskd_ascii;
    eui64_ascii = eui64_ascii;
    eui64_bin = eui64_bytes eui64_ascii;
  })

-- `erase(begin() + index)` and `json_array_remove`.
unfoldable pub erase_at {ℓ} : {A : Type ℓ} → List A → ℕ → Option (List A)
erase_at [] i = none
erase_at (x ∷ xs) zero = some xs
erase_at (x ∷ xs) (suc i) = erase_at xs i >>= λ ys. some (x ∷ ys)

-- What a search of the array ends with.
pub data Found : Type 0 where
  missing : Found
  at : ℕ → Found

-- `vector.size() - 1` is unsigned. The outer `none` is a pointer past the last element.
unfoldable pub instance_at : List JoinerInstance → ℕ → Option (Option JoinerInstance)
instance_at vector num =
    if ltb ((length vector + 2 ^ 64 - 1) % 2 ^ 64) num
    then some none
    else get_elem? vector num >>= λ i. some (some i)

module _ (sha256 : List ℕ → List ℕ) (J : Jansson) where
  open J use {
    Json, loads, elements, object_get, string_value, string, empty_object, object_set, dumps,
  }

  pub record JoinerList : Type 0 where
    pub array : List (Cell Json)
    pub vector : List JoinerInstance
    pub steering : SteeringData
    pub updated : Bool

  -- `steering` is uninitialised memory before `Init`.
  unfoldable pub make : SteeringData → Option JoinerList
  unfolding init
  make s = do
    steering ← init s steering_default_length
    some (record { array = []; vector = []; steering = steering; updated = false })

  -- `json_array_clear` gives up a reference to every element.
  unfoldable pub clear_cells : List (Cell Json) → Option (List (Cell Json))
  clear_cells [] = some []
  clear_cells (live j ∷ cells) = clear_cells cells
  clear_cells (freed ∷ cells) = none

  unfoldable pub clear_list : JoinerList → Option JoinerList
  unfolding clear clear_cells
  clear_list l = do
    array ← clear_cells l.array
    some (record l { array = array; vector = []; steering = clear l.steering })

  unfoldable pub rebuild : SteeringData → List JoinerInstance → Option SteeringData
  unfolding compute_steering_data
  rebuild s [] = some s
  rebuild s (i ∷ is) = compute_steering_data sha256 s false i.eui64_bin >>= λ s'. rebuild s' is

  -- `ComputeSteering`; `back` is the last element of the vector.
  unfoldable pub compute_steering : JoinerList → Bool → JoinerInstance → Option JoinerList
  compute_steering l recalc_all back = do
    steering ←
        (if recalc_all
          then rebuild (clear l.steering) l.vector
          else compute_steering_data sha256 l.steering false back.eui64_bin)
    some (record l { steering = steering; updated = true })

  -- What one round of the loop of `Write` ends with.
  pub data Item : Type 0 where
    malformed : Item
    joined : JoinerInstance → SteeringData → Item

  -- `JsonUnpack`, and the new instance.
  pub write_item : SteeringData → Json → Option Item
  write_item steering current = elim (object_get current psk_key) [
    | none ↦ some malformed
    | some psk ↦ elim (object_get current eui64_key) [
      | none ↦ some malformed
      | some eui ↦ do
        psk_text ← string_value psk
        eui_text ← string_value eui
        instance' ← make_instance psk_text eui_text
        steering' ← compute_steering_data sha256 steering false instance'.eui64_bin
        some (joined instance' steering')
    ]
  ]

  -- On a malformed element the parsed array is released, and with it every element that
  -- `json_array_append_new` has put into `array` without a reference of its own.
  unfoldable pub write_items : JoinerList → List Json → Option (JoinerList × StatusCode)
  unfolding write_item
  write_items l [] = some (record l { updated = true }, success_ok)
  write_items l (current ∷ rest) = elim (write_item l.steering current) [
    | none ↦ none
    | some malformed ↦ some (record l { array = map (λ _. freed) l.array }, client_error)
    | some (joined i s) ↦
        write_items
          (record l {
            array = l.array ++ live current ∷ [];
            vector = l.vector ++ i ∷ [];
            steering = s;
          })
          rest
  ]

  unfoldable pub write : JoinerList → List ℕ → Option (JoinerList × StatusCode)
  write l text = do
    l' ← clear_list l
    (elim (loads text) [
      | none ↦ some (l', client_error)
      | some parsed ↦ elim (elements parsed) [
        | none ↦ write_items l' (parsed ∷ [])
        | some items ↦ write_items l' items
      ]
    ])

  -- `json_array_foreach` with the comparison of `eui64`.
  unfoldable pub find_eui : List (Cell Json) → List ℕ → ℕ → Option Found
  find_eui [] eui index = some missing
  find_eui (freed ∷ cells) eui index = none
  find_eui (live value ∷ cells) eui index = elim (object_get value eui64_key >>= string_value) [
    | none ↦ none
    | some text ↦
        let rest = find_eui cells eui (index + 1) in
        if same_text text eui then some (at index) else rest
  ]

  -- `json_object_set_new`, which fails on a null value.
  unfoldable pub set_new : Json → List ℕ → Option Json → Json
  set_new obj key none = obj
  set_new obj key (some value) = object_set obj key value

  -- The list without element `index` of both containers, and whether one was taken out.
  unfoldable pub take_out : JoinerList → Found → Option (JoinerList × Bool)
  unfolding erase_at
  take_out l missing = some (l, false)
  take_out l (at index) = do
    array ← erase_at l.array index
    vector ← erase_at l.vector index
    some (record l { array = array; vector = vector }, true)

  unfoldable pub entry_object : List ℕ → List ℕ → Json
  unfolding set_new
  entry_object body eui =
      set_new (set_new empty_object psk_key (string body)) eui64_key (string eui)

  unfoldable pub edit : JoinerList → List ℕ → List ℕ → Option (JoinerList × StatusCode)
  edit l body eui =
      if length eui == eui64_len * 2
      then (find_eui l.array eui 0 >>= λ found. take_out l found >>= λ (l', recalc_all).
          make_instance body eui >>= λ current.
          compute_steering
            (record l' {
              array = l'.array ++ live (entry_object body eui) ∷ [];
              vector = l'.vector ++ current ∷ [];
            })
            recalc_all current
          >>= λ l''. some (l'', success_ok))
      else some (l, client_error)

  unfoldable pub clear_all : JoinerList → Option JoinerList
  clear_all l = clear_list l >>= λ l'. some (record l' { updated = true })

  -- `ComputeSteering(true)` after a removal.
  unfoldable pub refresh : JoinerList → Option JoinerList
  refresh l = do
    steering ← rebuild (clear l.steering) l.vector
    some (record l { steering = steering; updated = true })

  unfoldable pub remove : JoinerList → List ℕ → Option (JoinerList × StatusCode)
  remove l eui = find_eui l.array eui 0 >>= λ found. take_out l found >>= λ (l', hit).
      if hit
      then (refresh l' >>= λ l''. some (l'', success_ok))
      else some (l, client_error_not_found)

  unfoldable pub live_values : List (Cell Json) → Option (List Json)
  live_values [] = some []
  live_values (freed ∷ cells) = none
  live_values (live j ∷ cells) = live_values cells >>= λ js. some (j ∷ js)

  unfoldable pub read : JoinerList → Option (List ℕ)
  unfolding live_values
  read l = live_values l.array >>= λ js. some (dumps js)

  unfoldable pub list_update_finished : JoinerList → JoinerList
  list_update_finished l = record l { updated = false }

  unfoldable pub get_joiner_instance : JoinerList → ℕ → Option (Option JoinerInstance)
  unfolding instance_at
  get_joiner_instance l num = instance_at l.vector num
