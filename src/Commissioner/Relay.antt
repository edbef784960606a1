-- ===== src/Commissioner/Relay.antt =====
-- commissioner.cpp: the relay messages that come from the mesh.
use commissioner.Prelude.{
  ℕ, ◌+◌, ◌*◌, ◌^◌, ◌≤◌, ◌<◌, ◌≡◌, Bool, false, List, [], ◌∷◌, ◌++◌, length, get_or, All,
  if◌then◌else◌, ◌==◌,
}
use commissioner.Common.Tlv.Layout.{Entry, length_field}
use commissioner.Common.Tlv.Walk.{Control, continue, leave}
use commissioner.JoinerList.{JoinerInstance}
use commissioner.Commissioner.{Commissioner, control}
use commissioner.Commissioner.Search.{first_match, bind_key}

value_address : Entry → List ℕ → ℕ
value_address t pre = length pre + length (t.type ∷ length_field (length t.value) false)

module _ (sha256 : List ℕ → List ℕ) (sends : List ℕ → Bool) (vector : List JoinerInstance) where
  -- An entry that the loop can read.
  pub record IsRelay (t : Entry) : Type 0 where
    pub short : length t.value < 2 ^ 16
    pub bytes : All (λ b. b < 256) t.value
    pub port : t.type ≡ 18 → 2 ≤ length t.value
    pub iid : t.type ≡ 19 → length t.value ≡ 8
    pub locator : t.type ≡ 20 → 2 ≤ length t.value

  -- What one entry means.
  abbrev pub apply_relay : Entry → Commissioner → Control Commissioner
  apply_relay t c =
      if t.type == 17
      then (if sends t.value
          then continue (record c { relayed = c.relayed ++ t.value ∷ [] })
          else leave c)
      else if t.type == 18
      then continue (record c { joiner_udp_port = get_or t.value 0 0 * 256 + get_or t.value 1 0 })
      else if t.type == 19
      then control
          (bind_key sha256 (first_match sha256 vector t.value) (record c { joiner_iid = t.value }))
      else if t.type == 20
      then continue
          (record c { joiner_router_locator = get_or t.value 0 0 * 256 + get_or t.value 1 0 })
      else continue c
