-- ===== src/ArgcArgv/Handlers.antt =====
-- commissioner_argcargv.cpp: the handlers of the options, their table and the function `ParseArgs`.
-- `strtol` is the C library's: the value of a text and how many of its characters it has read.
use commissioner.Prelude.{
  ℕ, suc, Bool, true, false, ◌&&◌, ◌||◌, not, Option, none, some, List, [], ◌∷◌, ltb, leb, ◌==◌,
  if◌then◌else◌, length,
}
use commissioner.ArgcArgv.{
  CommissionerArgs, Logging, ArgcArgv, Handler, ArgcArgvOpt, HexParam, ℤ, pos, negsuc, make,
  add_option, str_param, hex_param, int_of_long, parse_all,
}
use commissioner.ArgcArgv.Names

-- A handler that stores a text in an array of `bufsiz` characters. The system's INET6_ADDRSTRLEN is
-- 46, and its PATH_MAX is 4096.
abbrev pub store_text : ℕ → (CommissionerArgs → List ℕ → CommissionerArgs) → Handler
store_text bufsiz put p =
    let (p', found) = str_param p bufsiz in
    elim found [ none ↦ (p', true) | some cp ↦ (record p' { args = put p'.args cp }, false) ]

-- A handler that sets a flag, which cannot fail.
abbrev pub set_flag : (CommissionerArgs → CommissionerArgs) → Handler
set_flag f p = (record p { args = f p.args }, false)

unfoldable pub handle_ip_addr : Handler
handle_ip_addr = store_text 46 λ a cp. record a { agent_address_ascii = cp }

unfoldable pub handle_ip_port : Handler
handle_ip_port = store_text 6 λ a cp. record a { agent_port_ascii = cp }

unfoldable pub handle_netname : Handler
handle_netname = store_text 17 λ a cp. record a { network_name = cp }

unfoldable pub handle_agent_passphrase : Handler
handle_agent_passphrase = store_text 65 λ a cp. record a { pass_phrase = cp }

unfoldable pub handle_hashmac : Handler
handle_hashmac p =
    let h : HexParam = hex_param p p.args.joiner_hashmac_ascii p.args.joiner_hashmac_bin 8 in
    let p' = h.parser in
    (
      record p' {
        args = record p'.args { joiner_hashmac_ascii = h.ascii; joiner_hashmac_bin = h.bin };
      },
      h.failed,
    )

unfoldable pub handle_eui64 : Handler
handle_eui64 p =
    let h : HexParam = hex_param p p.args.joiner_eui64_ascii p.args.joiner_eui64_bin 8 in
    let p' = h.parser in
    (
      record p' {
        args = record p'.args { joiner_eui64_ascii = h.ascii; joiner_eui64_bin = h.bin };
      },
      h.failed,
    )

unfoldable pub handle_xpanid : Handler
handle_xpanid p =
    let h : HexParam = hex_param p p.args.xpanid_ascii p.args.xpanid_bin 8 in
    let p' = h.parser in
    (record p' { args = record p'.args { xpanid_ascii = h.ascii; xpanid_bin = h.bin } }, h.failed)

unfoldable pub handle_pskc_bin : Handler
handle_pskc_bin p =
    let h : HexParam = hex_param p p.args.pskc_ascii p.args.pskc_bin 16 in
    let p' = h.parser in
    let a : CommissionerArgs = record p'.args { pskc_ascii = h.ascii; pskc_bin = h.bin } in
    (record p' { args = if h.failed then a else record a { has_pskc = true } }, h.failed)

-- One character of a key: no I, O, Q or Z, and an upper-case letter or a digit.
unfoldable pub is_pskd_char : ℕ → Bool
is_pskd_char ch =
    if (ch == b'Z' || ch == b'I') || (ch == b'O' || ch == b'Q')
    then false
    else (leb b'A' ch && leb ch b'Z') || (leb b'0' ch && leb ch b'9')

unfoldable pub pskd_chars : List ℕ → Bool
pskd_chars [] = true
pskd_chars (ch ∷ pskd) = let rest = pskd_chars pskd in if is_pskd_char ch then rest else false

-- `whybad == NULL`.
unfoldable pub is_pskd : List ℕ → Bool
is_pskd pskd = if ltb (length pskd) 6 || ltb 32 (length pskd) then false else pskd_chars pskd

unfoldable pub handle_pskd : Handler
handle_pskd p =
    let (p', found) = str_param p 33 in
    elim found [
      | none ↦ (p', true)
      | some pskd ↦
          if is_pskd pskd
          then (record p' { args = record p'.args { joiner_pskd_ascii = pskd } }, false)
          else (p', true)
    ]

unfoldable pub handle_log_filename : Handler
handle_log_filename p =
    let (p', found) = str_param p 4096 in
    elim found [
      | none ↦ (p', true)
      | some cp ↦ (record p' { log = record p'.log { filename = some cp } }, false)
    ]

unfoldable pub handle_compute_pskc : Handler
handle_compute_pskc = set_flag λ a. record a { need_compute_pskc = true }

unfoldable pub handle_commission_device : Handler
handle_commission_device = set_flag λ a. record a { need_commission_device = true }

unfoldable pub handle_compute_hashmac : Handler
handle_compute_hashmac = set_flag λ a. record a { need_compute_joiner_hash_mac = true }

unfoldable pub handle_compute_steering : Handler
handle_compute_steering = set_flag λ a. record a { need_compute_joiner_steering = true }

unfoldable pub handle_allow_all_joiners : Handler
handle_allow_all_joiners = set_flag λ a. record a { allow_all_joiners = true }

unfoldable pub handle_comm_ka_disabled : Handler
handle_comm_ka_disabled = set_flag λ a. record a { need_send_comm_ka = false }

unfoldable pub handle_no_syslog : Handler
handle_no_syslog p = (record p { log = record p.log { syslog = false } }, false)

-- The fields that `ParseArgs` sets before it reads the words.
unfoldable pub defaults : CommissionerArgs → CommissionerArgs
defaults a = record a {
  envelope_timeout = 300;
  allow_all_joiners = false;
  need_send_comm_ka = true;
  send_comm_ka_tx_rate = 15;
  steering_length = 15;
  need_compute_pskc = false;
  need_compute_joiner_steering = false;
  need_compute_joiner_hash_mac = false;
  need_commission_device = true;
  has_pskc = false;
}

module _ (strtol : List ℕ → ℤ × ℕ) where
  -- The converted value, -1 where the text is missing, too long or no number.
  unfoldable pub num_param : ArgcArgv → ArgcArgv × ℤ
  num_param p =
      let (p', found) = str_param p 100 in
      elim found [
        | none ↦ (p', negsuc 0)
        | some s ↦
            let (v, read) = strtol s in
            (p', if read == 0 || not (read == length s) then negsuc 0 else int_of_long v)
      ]

  -- A handler of a number from `low` to `high`, which is above 0.
  abbrev pub store_number : ℕ → ℕ → (CommissionerArgs → ℕ → CommissionerArgs) → Handler
  store_number low high put p =
      let (p', v) = num_param p in
      elim v [
        | negsuc n ↦ (p', true)
        | pos n ↦
            if ltb n low || ltb high n
            then (p', true)
            else (record p' { args = put p'.args n }, false)
      ]

  unfoldable pub handle_steering_length : Handler
  handle_steering_length = store_number 1 16 λ a n. record a { steering_length = n }

  unfoldable pub handle_comm_ka_rate : Handler
  handle_comm_ka_rate = store_number 3 86400 λ a n. record a { send_comm_ka_tx_rate = n }

  unfoldable pub handle_comm_envelope_timeout : Handler
  handle_comm_envelope_timeout = store_number 1 86400 λ a n. record a { envelope_timeout = n }

  -- `OTBR_LOG_EMERG` is 0 and `OTBR_LOG_DEBUG` is 7.
  unfoldable pub handle_debug_level : Handler
  handle_debug_level p =
      let (p', v) = num_param p in
      elim v [
        | negsuc n ↦ (p', true)
        | pos n ↦
            (record p' { log = record p'.log { level = some (if ltb 7 n then 7 else n) } }, false)
      ]

  unfoldable pub options : List ArgcArgvOpt
  options =
      let o1 = add_option [] Names.joiner_eui64_name handle_eui64 in
      let o2 = add_option o1 Names.joiner_passphrase_name handle_pskd in
      let o3 = add_option o2 Names.network_name_name handle_netname in
      let o4 = add_option o3 Names.xpanid_name handle_xpanid in
      let o5 = add_option o4 Names.agent_passphrase_name handle_agent_passphrase in
      let o6 = add_option o5 Names.agent_addr_name handle_ip_addr in
      let o7 = add_option o6 Names.agent_port_name handle_ip_port in
      let o8 = add_option o7 Names.pskc_bin_name handle_pskc_bin in
      let o9 = add_option o8 Names.hashmac_name handle_hashmac in
      let o10 = add_option o9 Names.steering_length_name handle_steering_length in
      let o11 = add_option o10 Names.allow_all_joiners_name handle_allow_all_joiners in
      let o12 = add_option o11 Names.log_filename_name handle_log_filename in
      let o13 = add_option o12 Names.compute_pskc_name handle_compute_pskc in
      let o14 = add_option o13 Names.compute_hashmac_name handle_compute_hashmac in
      let o15 = add_option o14 Names.compute_steering_name handle_compute_steering in
      let o16 = add_option o15 Names.comm_ka_disabled_name handle_comm_ka_disabled in
      let o17 = add_option o16 Names.comm_ka_rate_name handle_comm_ka_rate in
      let o18 = add_option o17 Names.disable_syslog_name handle_no_syslog in
      let o19 = add_option o18 Names.comm_envelope_timeout_name handle_comm_envelope_timeout in
      let o20 = add_option o19 Names.commission_device_name handle_commission_device in
      add_option o20 Names.debug_level_name handle_debug_level

  -- Each round of the loop reads a word, so that one round more than there are words is enough fuel.
  unfoldable pub parse_args : List (List ℕ) → CommissionerArgs → Logging → Option (ArgcArgv × Bool)
  parse_args argv user_args log =
      let p = make argv (defaults user_args) log in
      if length argv == 1 then some (p, true) else parse_all (suc (length argv)) options p
