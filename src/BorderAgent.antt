-- ===== src/BorderAgent.antt =====
-- lib/borderrouter/src/agent/border_agent.cpp: when the border agent's service is published. The
-- publisher is one of two implementations over a system's daemon, and enters by its interface; the
-- sockets and the NCP controller's transmission are the results.
pub mod Publishing
use commissioner.Prelude.{
  ℕ, ◌+◌, ◌*◌, ◌%◌, ◌^◌, Bool, true, false, ◌&&◌, Option, none, some, List, [], ◌∷◌, ◌++◌, ◌==◌,
  ltb, not, if◌then◌else◌, length, take,
}
use commissioner.Utils.Hex.{bytes2hex}

-- `agent/mdns.hpp`: what the agent calls of a publisher. `publish` takes the port, the name of the
-- service and the extended PAN ID in hexadecimal digits.
pub record Publisher : Type 1 where
  pub State : Type 0
  pub is_started : State → Bool
  pub start : State → State
  pub stop : State → State
  pub publish : State → ℕ → List ℕ → List ℕ → State

pub data MdnsState : Type 0 where
  idle ready : MdnsState

abbrev pub udp_port : ℕ
udp_port = 49191

-- The datagram to the commissioner: port, address and bytes; nothing for another socket's port.
unfoldable pub send_to_commissioner : List ℕ → ℕ → List ℕ → ℕ → Option (ℕ × List ℕ × List ℕ)
send_to_commissioner packet peer_port addr sock_port =
    if sock_port % 2 ^ 16 == udp_port
    then some (peer_port % 2 ^ 16, addr, take (length packet % 2 ^ 16) packet)
    else none

-- `Process` hands to the NCP what it receives, cut to the buffer's size: bytes, peer and port.
unfoldable pub process : List ℕ → ℕ → List ℕ → Option (List ℕ × ℕ × List ℕ × ℕ)
process datagram peer_port addr =
    let packet = take 1500 datagram in
    if ltb 0 (length packet) then some (packet, peer_port, addr, udp_port) else none

module _ (P : Publisher) where
  -- `network_name` is the text in the array, which has room for 16 characters.
  pub record BorderAgent : Type 0 where
    pub publisher : P.State
    pub ext_pan_id : List ℕ
    pub network_name : List ℕ
    pub thread_started : Bool

  -- The arrays are not initialised by the constructor.
  unfoldable pub make : P.State → List ℕ → List ℕ → BorderAgent
  make publisher ext_pan_id network_name = record {
    publisher = publisher;
    ext_pan_id = ext_pan_id;
    network_name = network_name;
    thread_started = false;
  }

  abbrev pub is_named : BorderAgent → Bool
  is_named b = elim b.network_name [ [] ↦ false | c ∷ name ↦ true ]

  -- `none` is the failed assertion on the name.
  unfoldable pub publish_service : BorderAgent → Option BorderAgent
  publish_service b =
      if is_named b
      then some (record b {
        publisher = P.publish b.publisher udp_port b.network_name (bytes2hex b.ext_pan_id);
      })
      else none

  unfoldable pub handle_mdns_state : BorderAgent → MdnsState → Option BorderAgent
  handle_mdns_state b ready = publish_service b
  handle_mdns_state b idle = some b

  unfoldable pub start_publish_service : BorderAgent → Option BorderAgent
  start_publish_service b =
      if P.is_started b.publisher
      then publish_service b
      else some (record b { publisher = P.start b.publisher })

  unfoldable pub stop_publish_service : BorderAgent → BorderAgent
  stop_publish_service b =
      if P.is_started b.publisher then record b { publisher = P.stop b.publisher } else b

  unfoldable pub handle_thread_change : BorderAgent → Option BorderAgent
  handle_thread_change b =
      if b.thread_started && is_named b
      then start_publish_service b
      else some (stop_publish_service b)

  unfoldable pub set_thread_started : BorderAgent → Bool → Option BorderAgent
  set_thread_started b started = handle_thread_change (record b { thread_started = started })

  unfoldable pub set_network_name : BorderAgent → List ℕ → Option BorderAgent
  set_network_name b name =
      handle_thread_change
        (record b { network_name = take 16 name; publisher = P.stop b.publisher })

  unfoldable pub set_ext_pan_id : BorderAgent → List ℕ → Option BorderAgent
  set_ext_pan_id b id = handle_thread_change (record b { ext_pan_id = take 8 id })
