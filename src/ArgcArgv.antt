-- ===== src/ArgcArgv.antt =====
-- lib/borderrouter/src/commissioner/commissioner_argcargv.cpp: the command line. `usage` only prints,
-- so that it leaves no trace here, and the help texts of the table are left out. `argv` holds the
-- words without the null pointer behind them.
pub mod Names
pub mod Handlers
pub mod Words
pub mod Keeps
pub mod Limits
use commissioner.Prelude.{
  ℕ, zero, suc, ◌+◌, ◌-◌, ◌*◌, ◌%◌, ◌^◌, Bool, true, false, Option, none, some, List, [], ◌∷◌, ◌++◌,
  ltb, ◌==◌, if◌then◌else◌, length, get_elem?, set, drop, ◌||◌, not,
}
use commissioner.Prelude.Chain.{◌>>=◌}
use commissioner.Utils.Hex.{Decoded, hex2bytes}
use commissioner.JoinerList.Json.{same_text}

-- The arrays of characters hold texts, the others the decoded bytes.
pub record CommissionerArgs : Type 0 where
  pub agent_port_ascii : List ℕ
  pub agent_address_ascii : List ℕ
  pub joiner_hashmac_ascii : List ℕ
  pub joiner_hashmac_bin : List ℕ
  pub joiner_eui64_ascii : List ℕ
  pub joiner_eui64_bin : List ℕ
  pub allow_all_joiners : Bool
  pub joiner_pskd_ascii : List ℕ
  pub steering_length : ℕ
  pub need_send_comm_ka : Bool
  pub send_comm_ka_tx_rate : ℕ
  pub envelope_timeout : ℕ
  pub pskc_ascii : List ℕ
  pub pskc_bin : List ℕ
  pub has_pskc : Bool
  pub xpanid_ascii : List ℕ
  pub xpanid_bin : List ℕ
  pub network_name : List ℕ
  pub pass_phrase : List ℕ
  pub need_compute_pskc : Bool
  pub need_compute_joiner_hash_mac : Bool
  pub need_compute_joiner_steering : Bool
  pub need_commission_device : Bool

-- What the handlers have set in the program's log.
pub record Logging : Type 0 where
  pub filename : Option (List ℕ)
  pub level : Option ℕ
  pub syslog : Bool

pub record ArgcArgv : Type 0 where
  pub argv : List (List ℕ)
  pub argx : ℕ
  pub args : CommissionerArgs
  pub log : Logging

-- A handler returns whether it has failed.
abbrev pub Handler : Type 0
Handler = ArgcArgv → ArgcArgv × Bool

pub record ArgcArgvOpt : Type 0 where
  pub name : List ℕ
  pub handler : Handler

abbrev pub max_opts : ℕ
max_opts = 40

unfoldable pub make : List (List ℕ) → CommissionerArgs → Logging → ArgcArgv
make argv args log = record { argv = argv; argx = 1; args = args; log = log }

-- In a full table the last entry is overwritten.
unfoldable pub add_option : List ArgcArgvOpt → List ℕ → Handler → List ArgcArgvOpt
add_option opts name handler =
    let opt : ArgcArgvOpt = record { name = name; handler = handler } in
    if ltb (length opts) max_opts then opts ++ opt ∷ [] else set opts (max_opts - 1) opt

-- `none` is the null pointer.
unfoldable pub str_param : ArgcArgv → ℕ → ArgcArgv × Option (List ℕ)
str_param p bufsiz =
    let p' : ArgcArgv = record p { argx = p.argx + 1 } in
    if ltb (length p.argv) (p.argx + 1) then (p', none) else (
      p',
      get_elem? p.argv p.argx >>= λ cp. if ltb bufsiz (length cp + 1) then none else some cp,
    )

-- The two arrays after the call, and whether it has failed.
pub record HexParam : Type 0 where
  pub parser : ArgcArgv
  pub ascii : List ℕ
  pub bin : List ℕ
  pub failed : Bool

unfoldable pub hex_param : ArgcArgv → List ℕ → List ℕ → ℕ → HexParam
hex_param p ascii bin bin_len =
    let (p', found) = str_param p (bin_len * 2 + 1) in
    elim found [
      | none ↦ record { parser = p'; ascii = ascii; bin = bin; failed = true }
      | some cp ↦
          let d : Decoded = hex2bytes cp bin_len in
          record {
            parser = p';
            ascii = cp;
            bin = d.stored ++ drop (length d.stored) bin;
            failed = elim d.ret [ none ↦ true | some n ↦ not (n == bin_len) ];
          }
    ]

-- The integers, for what `strtol` returns.
pub data ℤ : Type 0 where
  pos negsuc : ℕ → ℤ

-- A 32-bit pattern read as an `int`.
abbrev pub int_of_bits : ℕ → ℤ
int_of_bits m = if ltb m (2 ^ 31) then pos m else negsuc (2 ^ 32 - 1 - m)

unfoldable pub int_of_long : ℤ → ℤ
int_of_long (pos n) = int_of_bits (n % 2 ^ 32)
int_of_long (negsuc n) = int_of_bits (2 ^ 32 - 1 - n % 2 ^ 32)

-- What the method `ParseArgs` returns: -1, 1 and 0.
pub data Parsed : Type 0 where
  at_end failed more : Parsed

abbrev pub help_words : List (List ℕ)
help_words =
    (b'-' ∷ b'h' ∷ [])
    ∷ (b'-' ∷ b'?' ∷ [])
    ∷ (b'-' ∷ b'h' ∷ b'e' ∷ b'l' ∷ b'p' ∷ [])
    ∷ (b'-' ∷ b'-' ∷ b'h' ∷ b'e' ∷ b'l' ∷ b'p' ∷ [])
    ∷ []

abbrev pub is_word : List ℕ → List (List ℕ) → Bool
is_word arg [] = false
is_word arg (w ∷ words) = same_text w arg || is_word arg words

-- The loop over the table; `none` is the entry without a name behind the last one.
pub find_opt : List ArgcArgvOpt → List ℕ → Option Handler
find_opt [] arg = none
find_opt (opt ∷ opts) arg =
    let rest = find_opt opts arg in if same_text arg opt.name then some opt.handler else rest

-- The method `ParseArgs`.
unfoldable pub parse_next : List ArgcArgvOpt → ArgcArgv → ArgcArgv × Parsed
parse_next opts p = elim (get_elem? p.argv p.argx) [
  | none ↦ (p, at_end)
  | some arg ↦
      let p' : ArgcArgv = record p { argx = p.argx + 1 } in
      if is_word arg help_words then (p', failed) else elim (find_opt opts arg) [
        | none ↦ (p', failed)
        | some handler ↦ let (p'', bad) = handler p' in (p'', if bad then failed else more)
      ]
]

-- What the loop of the function `ParseArgs` does with a result: whether it has failed, or `rest`.
abbrev pub resume :
    (ArgcArgv → Option (ArgcArgv × Bool)) → ArgcArgv × Parsed → Option (ArgcArgv × Bool)
resume rest (p, at_end) = some (p, false)
resume rest (p, failed) = some (p, true)
resume rest (p, more) = rest p

-- That loop, with fuel.
pub parse_all : ℕ → List ArgcArgvOpt → ArgcArgv → Option (ArgcArgv × Bool)
parse_all zero opts p = none
parse_all (suc fuel) opts p = resume (λ q. parse_all fuel opts q) (parse_next opts p)
