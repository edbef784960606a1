-- ===== src/Lib.antt =====
-- The Thread commissioner: the program that lets new devices join a Thread network. It talks to a
-- border agent over CoAP and DTLS, keeps a list of the joiners that may come in, and tells the mesh of
-- them by steering data, a Bloom filter of their hashes. A joiner's packets reach it in relay messages,
-- and go to a local DTLS session with that joiner and back.
--
-- Which file is about which code (paths from the root of the repository; L stands for
-- lib/borderrouter/src):
-- - Utils/Hex: L/utils/hex.cpp. `hex2bytes` is Hex2Bytes, with what it returns and what it has stored.
-- - Utils/Crc16: L/utils/crc16.cpp and .hpp.
-- - Utils/SteeringData: L/utils/steering_data.cpp and .hpp, and the hashes of
--   L/commissioner/device_hash.cpp over a parameter for SHA-256.
-- - Common/Tlv: L/common/tlv.hpp, over a block of memory; Common/Tlv/Walk is the loop over a payload
--   that the CoAP handlers share.
-- - JoinerList: inc/joiner_list_api.hpp. The JSON library is the parameter `Jansson`; an element that
--   was released while the list still holds it is the cell `freed`.
-- - JoinerSession: L/commissioner/joiner_session.cpp.
-- - Dtls: L/agent/dtls_mbedtls.cpp, the sessions of the DTLS server with JoinerSession as its handler.
-- - Commissioner: L/commissioner/commissioner.cpp. What is handed to the CoAP agent and to the local
--   socket is kept in the two lists `sent` and `relayed` of the state.
-- - ArgcArgv: L/commissioner/commissioner_argcargv.cpp, with a parameter for strtol.
-- - EventEmitter: L/common/event_emitter.cpp.
-- - BorderAgent: L/agent/border_agent.cpp, over the interface of L/agent/mdns.hpp.
-- - Mdns: the publishers behind that interface. Mdns/Avahi and Mdns/Poller are L/agent/mdns_avahi.cpp,
--   Mdns/Mdnssd is L/agent/mdns_mdnssd.cpp; what the libraries answer is an argument.
--   Mdns/Avahi/Agent fills the interface with the Avahi publisher.
-- - Pskc: L/web/pskc-generator/pskc.cpp, with a parameter for the pseudo-random function.
-- - Web: L/web/web-service/wpan_service.cpp, the requests that join and form a network and that add and
--   delete a prefix, over what wpantund answers.
-- - Plugin: inc and src, the plugin that runs the commissioner behind a REST interface.
--   Plugin/Status is ReturnStatus and Plugin/Parameters CommissionerArgs. Plugin/Rest has the
--   handlers of src/comm_rest_api.cpp, `respond` for one that the HTTP framework has chosen.
--   Plugin/Announce is the round in which the commissioner thread sends the joiner list's steering
--   data, at once and call by call. Plugin/Threads has the manager thread and the commissioner thread of src/comm.cpp as steps
--   between their uses of what they share, and Plugin/Threads/Reset two managers beside one another.
-- Prelude holds what they share, and Examples runs the theorems on concrete inputs.
--
-- A C string is the list of its bytes before the final zero, an array of bytes a list, and a pointer
-- into a block an offset. `none`, and `faulted` for a loop, is undefined behaviour or a failed
-- assertion. Numbers are natural numbers with the wrap-around of their width written out.
--
-- Fuel: a walk over a payload has one round more than there are bytes, and every entry has two bytes at
-- least; ParseArgs has one round more than there are words, and every round reads one; the key of
-- Pskc has 16 bytes, which is one block and the last test; FindEui has one round more than there
-- are joiners; `decimal` has 20 digits, as many as a number of 64 bits.
--
-- Not modelled: sockets, select, logging and printing, libcoap and mbed TLS, wpantund
-- and D-Bus, the pages, the status and the scan of the web service, and the frameworks that call the plugin.
pub mod Prelude
pub mod Utils
pub mod Common
pub mod JoinerList
pub mod JoinerSession
pub mod Commissioner
pub mod ArgcArgv
pub mod EventEmitter
pub mod BorderAgent
pub mod Pskc
pub mod Mdns
pub mod Dtls
pub mod Web
pub mod Examples
pub mod Plugin
