-- ===== src/Examples/Tools.antt =====
-- The theorems on encodings, checksums, the command line, the events, the border agent and the key.
use commissioner.Prelude.{
  ℕ, ◌-◌, ◌≤◌, ◌≡◌, ◌↔◌, ◌⊎◌, refl, Bool, true, false, none, some, List, [], ◌∷◌, ◌++◌, arith,
  length, take, replicate,
}
use commissioner.Utils.Hex.{hex2bytes, bytes2hex}
use commissioner.Utils.Hex.RoundTrip.{hex2bytes-bytes2hex}
use commissioner.Utils.Hex.Bounds.{IsHexText, hex2bytes_iff}
use commissioner.Utils.Crc16.{Crc16}
use commissioner.ArgcArgv.{CommissionerArgs, Logging, ArgcArgv, ℤ, pos, make as make_parser}
use commissioner.ArgcArgv.Names
use commissioner.ArgcArgv.Handlers.{parse_args}
use commissioner.ArgcArgv.Keeps.{TextsFit, InRange}
use commissioner.ArgcArgv.Limits.{parse_args_lem}
use commissioner.EventEmitter.{Handler, Events, emit}
use commissioner.EventEmitter.Histories.{
  Operation, registered, deregistered, run, expected, run-emit,
}
use commissioner.Pskc.{Pskc, salt_prefix, compute_pskc}
use commissioner.Pskc.Derivation.{T, compute_pskc-T}

abbrev digits : List ℕ
digits = b'0' ∷ b'a' ∷ b'F' ∷ []

hex2bytes-bytes2hex_example :
    hex2bytes (bytes2hex (10 ∷ 255 ∷ [])) 8 ≡ record { ret = some 2; stored = 10 ∷ 255 ∷ [] }
hex2bytes-bytes2hex_example =
    hex2bytes-bytes2hex (10 ∷ 255 ∷ []) 8 (omega arith, (omega arith, tt)) (omega arith)

hex2bytes_iff_example :
    (((hex2bytes digits 2).ret ≡ some 2) ↔ (IsHexText digits × (2 ≤ 2)))
    × (((hex2bytes digits 2).ret ≡ none) ⊎ ((hex2bytes digits 2).ret ≡ some 2))
hex2bytes_iff_example = hex2bytes_iff digits 2

abbrev ccitt : Crc16
ccitt = record { polynomial = 0x1021; crc = 0 }

abbrev no_args : CommissionerArgs
no_args = record {
  agent_port_ascii = [];
  agent_address_ascii = [];
  joiner_hashmac_ascii = [];
  joiner_hashmac_bin = [];
  joiner_eui64_ascii = [];
  joiner_eui64_bin = [];
  allow_all_joiners = false;
  joiner_pskd_ascii = [];
  steering_length = 0;
  need_send_comm_ka = false;
  send_comm_ka_tx_rate = 0;
  envelope_timeout = 0;
  pskc_ascii = [];
  pskc_bin = [];
  has_pskc = false;
  xpanid_ascii = [];
  xpanid_bin = [];
  network_name = [];
  pass_phrase = [];
  need_compute_pskc = false;
  need_compute_joiner_hash_mac = false;
  need_compute_joiner_steering = false;
  need_commission_device = false;
}

abbrev no_log : Logging
no_log = record { filename = none; level = none; syslog = true }

-- Reads one digit.
abbrev one_digit : List ℕ → ℤ × ℕ
one_digit [] = (pos 0, 0)
one_digit (c ∷ t) = (pos (c - b'0'), 1)

abbrev words : List (List ℕ)
words = [] ∷ Names.comm_ka_rate_name ∷ (b'7' ∷ []) ∷ Names.allow_all_joiners_name ∷ []

parse_args_lem_example :
    (q : ArgcArgv) × (bad : Bool) × (parse_args one_digit words no_args no_log ≡ some (q, bad))
    × TextsFit q.args
    × InRange q.args
    × (bad ≡ false → length words ≤ q.argx)
parse_args_lem_example = parse_args_lem one_digit words no_args no_log (
  omega arith,
  omega arith,
  omega arith,
  omega arith,
  omega arith,
  omega arith,
  omega arith,
  omega arith,
  omega arith,
)

abbrev key : List ℕ
key = b'J' ∷ b'0' ∷ b'1' ∷ b'N' ∷ b'M' ∷ b'E' ∷ []

abbrev parser : ArgcArgv
parser = make_parser ([] ∷ digits ∷ []) no_args no_log

abbrev handler : Handler
handler = record { callback = 7; context = 8 }

abbrev history : List Operation
history = deregistered 1 handler ∷ registered 1 handler ∷ registered 1 handler ∷ []

present : ¬ (handler.callback ≡ 0)
present e = omega (arith, e)

run-emit_example :
    (events : Events) × (run history ≡ some events)
    × ((e : ℕ) → emit events e ≡ some (expected history e))
run-emit_example = run-emit history (present, (present, (present, tt)))

abbrev pub prf : List ℕ → List ℕ → List ℕ
prf passphrase input = take 16 (input ++ replicate 16 3)

abbrev pub no_key : Pskc
no_key = record { salt = []; salt_len = 0; pskc = [] }

compute_pskc-T_example :
    (q : Pskc) × (compute_pskc prf 3 no_key (replicate 8 1) (b'n' ∷ []) key ≡ some q)
    × (q.pskc
        ≡ take 16 (
            T prf key
              ((salt_prefix ++ (replicate 8 1 ++ b'n' ∷ [])) ++ (0 ∷ 0 ∷ 0 ∷ 1 ∷ []))
              (3 - 1)))
compute_pskc-T_example =
    compute_pskc-T prf 3 no_key (replicate 8 1) (b'n' ∷ []) key refl (omega arith) (omega arith)
