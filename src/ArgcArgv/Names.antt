-- ===== src/ArgcArgv/Names.antt =====
-- The names of the options of lib/borderrouter/src/commissioner/commissioner_argcargv.cpp.
use commissioner.Prelude.{ℕ, List, [], ◌∷◌}

abbrev pub joiner_eui64_name : List ℕ
joiner_eui64_name =
    b'-' ∷ b'-' ∷ b'j' ∷ b'o' ∷ b'i' ∷ b'n' ∷ b'e' ∷ b'r' ∷ b'-' ∷ b'e' ∷ b'u' ∷ b'i' ∷ b'6' ∷ b'4'
    ∷ []

abbrev pub joiner_passphrase_name : List ℕ
joiner_passphrase_name =
    b'-' ∷ b'-' ∷ b'j' ∷ b'o' ∷ b'i' ∷ b'n' ∷ b'e' ∷ b'r' ∷ b'-' ∷ b'p' ∷ b'a' ∷ b's' ∷ b's' ∷ b'p'
    ∷ b'h' ∷ b'r' ∷ b'a' ∷ b's' ∷ b'e' ∷ []

abbrev pub network_name_name : List ℕ
network_name_name =
    b'-' ∷ b'-' ∷ b'n' ∷ b'e' ∷ b't' ∷ b'w' ∷ b'o' ∷ b'r' ∷ b'k' ∷ b'-' ∷ b'n' ∷ b'a' ∷ b'm' ∷ b'e'
    ∷ []

abbrev pub xpanid_name : List ℕ
xpanid_name = b'-' ∷ b'-' ∷ b'x' ∷ b'p' ∷ b'a' ∷ b'n' ∷ b'i' ∷ b'd' ∷ []

abbrev pub agent_passphrase_name : List ℕ
agent_passphrase_name =
    b'-' ∷ b'-' ∷ b'a' ∷ b'g' ∷ b'e' ∷ b'n' ∷ b't' ∷ b'-' ∷ b'p' ∷ b'a' ∷ b's' ∷ b's' ∷ b'p' ∷ b'h'
    ∷ b'r' ∷ b'a' ∷ b's' ∷ b'e' ∷ []

abbrev pub agent_addr_name : List ℕ
agent_addr_name =
    b'-' ∷ b'-' ∷ b'a' ∷ b'g' ∷ b'e' ∷ b'n' ∷ b't' ∷ b'-' ∷ b'a' ∷ b'd' ∷ b'd' ∷ b'r' ∷ []

abbrev pub agent_port_name : List ℕ
agent_port_name =
    b'-' ∷ b'-' ∷ b'a' ∷ b'g' ∷ b'e' ∷ b'n' ∷ b't' ∷ b'-' ∷ b'p' ∷ b'o' ∷ b'r' ∷ b't' ∷ []

abbrev pub pskc_bin_name : List ℕ
pskc_bin_name = b'-' ∷ b'-' ∷ b'p' ∷ b's' ∷ b'k' ∷ b'c' ∷ b'-' ∷ b'b' ∷ b'i' ∷ b'n' ∷ []

abbrev pub hashmac_name : List ℕ
hashmac_name = b'-' ∷ b'-' ∷ b'h' ∷ b'a' ∷ b's' ∷ b'h' ∷ b'm' ∷ b'a' ∷ b'c' ∷ []

abbrev pub steering_length_name : List ℕ
steering_length_name =
    b'-' ∷ b'-' ∷ b's' ∷ b't' ∷ b'e' ∷ b'e' ∷ b'r' ∷ b'i' ∷ b'n' ∷ b'g' ∷ b'-' ∷ b'l' ∷ b'e' ∷ b'n'
    ∷ b'g' ∷ b't' ∷ b'h' ∷ []

abbrev pub allow_all_joiners_name : List ℕ
allow_all_joiners_name =
    b'-' ∷ b'-' ∷ b'a' ∷ b'l' ∷ b'l' ∷ b'o' ∷ b'w' ∷ b'-' ∷ b'a' ∷ b'l' ∷ b'l' ∷ b'-' ∷ b'j' ∷ b'o'
    ∷ b'i' ∷ b'n' ∷ b'e' ∷ b'r' ∷ b's' ∷ []

abbrev pub log_filename_name : List ℕ
log_filename_name =
    b'-' ∷ b'-' ∷ b'l' ∷ b'o' ∷ b'g' ∷ b'-' ∷ b'f' ∷ b'i' ∷ b'l' ∷ b'e' ∷ b'n' ∷ b'a' ∷ b'm' ∷ b'e'
    ∷ []

abbrev pub compute_pskc_name : List ℕ
compute_pskc_name =
    b'-' ∷ b'-' ∷ b'c' ∷ b'o' ∷ b'm' ∷ b'p' ∷ b'u' ∷ b't' ∷ b'e' ∷ b'-' ∷ b'p' ∷ b's' ∷ b'k' ∷ b'c'
    ∷ []

abbrev pub compute_hashmac_name : List ℕ
compute_hashmac_name =
    b'-' ∷ b'-' ∷ b'c' ∷ b'o' ∷ b'm' ∷ b'p' ∷ b'u' ∷ b't' ∷ b'e' ∷ b'-' ∷ b'h' ∷ b'a' ∷ b's' ∷ b'h'
    ∷ b'm' ∷ b'a' ∷ b'c' ∷ []

abbrev pub compute_steering_name : List ℕ
compute_steering_name =
    b'-' ∷ b'-' ∷ b'c' ∷ b'o' ∷ b'm' ∷ b'p' ∷ b'u' ∷ b't' ∷ b'e' ∷ b'-' ∷ b's' ∷ b't' ∷ b'e' ∷ b'e'
    ∷ b'r' ∷ b'i' ∷ b'n' ∷ b'g' ∷ []

abbrev pub comm_ka_disabled_name : List ℕ
comm_ka_disabled_name =
    b'-' ∷ b'-' ∷ b'c' ∷ b'o' ∷ b'm' ∷ b'm' ∷ b'-' ∷ b'k' ∷ b'a' ∷ b'-' ∷ b'd' ∷ b'i' ∷ b's' ∷ b'a'
    ∷ b'b' ∷ b'l' ∷ b'e' ∷ b'd' ∷ []

abbrev pub comm_ka_rate_name : List ℕ
comm_ka_rate_name =
    b'-' ∷ b'-' ∷ b'c' ∷ b'o' ∷ b'm' ∷ b'm' ∷ b'-' ∷ b'k' ∷ b'a' ∷ b'-' ∷ b'r' ∷ b'a' ∷ b't' ∷ b'e'
    ∷ []

abbrev pub disable_syslog_name : List ℕ
disable_syslog_name =
    b'-' ∷ b'-' ∷ b'd' ∷ b'i' ∷ b's' ∷ b'a' ∷ b'b' ∷ b'l' ∷ b'e' ∷ b'-' ∷ b's' ∷ b'y' ∷ b's' ∷ b'l'
    ∷ b'o' ∷ b'g' ∷ []

abbrev pub comm_envelope_timeout_name : List ℕ
comm_envelope_timeout_name =
    b'-' ∷ b'-' ∷ b'c' ∷ b'o' ∷ b'm' ∷ b'm' ∷ b'-' ∷ b'e' ∷ b'n' ∷ b'v' ∷ b'e' ∷ b'l' ∷ b'o' ∷ b'p'
    ∷ b'e' ∷ b'-' ∷ b't' ∷ b'i' ∷ b'm' ∷ b'e' ∷ b'o' ∷ b'u' ∷ b't' ∷ []

abbrev pub commission_device_name : List ℕ
commission_device_name =
    b'-' ∷ b'-' ∷ b'c' ∷ b'o' ∷ b'm' ∷ b'm' ∷ b'i' ∷ b's' ∷ b's' ∷ b'i' ∷ b'o' ∷ b'n' ∷ b'-' ∷ b'd'
    ∷ b'e' ∷ b'v' ∷ b'i' ∷ b'c' ∷ b'e' ∷ []

abbrev pub debug_level_name : List ℕ
debug_level_name =
    b'-' ∷ b'-' ∷ b'd' ∷ b'e' ∷ b'b' ∷ b'u' ∷ b'g' ∷ b'-' ∷ b'l' ∷ b'e' ∷ b'v' ∷ b'e' ∷ b'l' ∷ []
