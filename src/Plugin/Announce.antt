-- ===== src/Plugin/Announce.antt =====
-- src/comm.cpp: the round of `CommissionerThread` that sends the joiner list's steering data to the
-- border agent. `buffer` is the memory of the message, `kek` that of a new joiner session.
pub mod Announced
pub mod Lost
use commissioner.Prelude.{
  ℕ, Bool, true, false, Option, none, some, List, [], ◌∷◌, ◌++◌, if◌then◌else◌,
}
use commissioner.Prelude.Chain.{◌>>=◌}
use commissioner.Commissioner.{
  Commissioner, Message, UriPath, petition_path, set_path, keep_alive_path, relay_tx_path,
  commissioner_set, set_joiner,
}
use commissioner.JoinerList.{JoinerList, list_update_finished}
use commissioner.JoinerList.Json.{Jansson}

-- The text that the worker gives a new joiner session as its key.
abbrev pub default_pskd : List ℕ
default_pskd = b'D' ∷ b'F' ∷ b'L' ∷ b'T' ∷ []

-- The call that the worker is about to make.
pub data RoundPc : Type 0 where
  testing telling joining clearing : RoundPc

module _ (sha256 : List ℕ → List ℕ) (J : Jansson) where
  -- `CommissionerSet(joiner_list.GetSteering())` and `SetJoiner("DFLT")`.
  unfoldable pub announce_steering :
      List ℕ → List ℕ → JoinerList sha256 J → Commissioner → Option Commissioner
  unfolding commissioner_set set_joiner
  announce_steering buffer kek l c =
      commissioner_set buffer l.steering c >>= λ c'. some (set_joiner c' kek default_pskd)

  -- The same code call by call, for what other threads do in between: the test of `WasListUpdated`, then
  -- `CommissionerSet`, `SetJoiner` and `ListUpdateFinished`, and round to the test again.
  unfoldable pub round_step :
      List ℕ
      → List ℕ
      → RoundPc
      → JoinerList sha256 J
      → Commissioner
      → Option (RoundPc × JoinerList sha256 J × Commissioner)
  unfolding commissioner_set set_joiner list_update_finished
  round_step buffer kek testing l c = some (if l.updated then telling else testing, l, c)
  round_step buffer kek telling l c =
      commissioner_set buffer l.steering c >>= λ c'. some (joining, l, c')
  round_step buffer kek joining l c = some (clearing, l, set_joiner c kek default_pskd)
  round_step buffer kek clearing l c = some (testing, list_update_finished sha256 J l, c)

  -- The test of `WasListUpdated` and its block, with nothing between its calls.
  unfoldable pub announce :
      List ℕ
      → List ℕ
      → JoinerList sha256 J
      → Commissioner
      → Option (JoinerList sha256 J × Commissioner)
  unfolding list_update_finished
  announce buffer kek l c =
      if l.updated
      then (announce_steering buffer kek l c >>= λ c'. some (list_update_finished sha256 J l, c'))
      else some (l, c)
