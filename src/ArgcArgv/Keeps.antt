-- ===== src/ArgcArgv/Keeps.antt =====
-- commissioner_argcargv.cpp: the limits of the arguments, and the handlers.
use commissioner.Prelude.{
  ℕ, ◌+◌, ◌≤◌, ◌<◌, ◌≡◌, ◌⊎◌, inl, inr, Bool, none, some, List, arith, length, get_elem?, All,
  Option-cases, Bool-cases, ltb,
}
use commissioner.ArgcArgv.{
  CommissionerArgs, ArgcArgv, Handler, ArgcArgvOpt, ℤ, add_option, str_param, hex_param,
}
use commissioner.ArgcArgv.Handlers.{
  handle_ip_addr, handle_ip_port, handle_netname, handle_agent_passphrase, handle_hashmac,
  handle_eui64, handle_xpanid, handle_pskc_bin, handle_pskd, handle_log_filename,
  handle_compute_pskc, handle_commission_device, handle_compute_hashmac, handle_compute_steering,
  handle_allow_all_joiners, handle_comm_ka_disabled, handle_no_syslog, num_param,
  handle_steering_length, handle_comm_ka_rate, handle_comm_envelope_timeout, handle_debug_level,
  options,
}

-- Every text fits its array, the final zero counted.
abbrev pub TextsFit : CommissionerArgs → Type 0
TextsFit a =
    (length a.agent_port_ascii < 6)
    × (length a.agent_address_ascii < 46)
    × (length a.joiner_hashmac_ascii < 17)
    × (length a.joiner_eui64_ascii < 17)
    × (length a.joiner_pskd_ascii < 33)
    × (length a.pskc_ascii < 33)
    × (length a.xpanid_ascii < 17)
    × (length a.network_name < 17)
    × (length a.pass_phrase < 65)

-- The numbers are in the ranges that the handlers test.
abbrev pub InRange : CommissionerArgs → Type 0
InRange a =
    (1 ≤ a.steering_length)
    × (a.steering_length ≤ 16)
    × (3 ≤ a.send_comm_ka_tx_rate)
    × (a.send_comm_ka_tx_rate ≤ 86400)
    × (1 ≤ a.envelope_timeout)
    × (a.envelope_timeout ≤ 86400)

-- What a handler may do: read words, and keep the limits.
abbrev pub Allowed : ArgcArgv → ArgcArgv × Bool → Type 0
Allowed p (q, bad) =
    (q.argv ≡ p.argv)
    × (p.argx ≤ q.argx)
    × (TextsFit p.args → TextsFit q.args)
    × (InRange p.args → InRange q.args)

abbrev pub Keeps : Handler → Type 0
Keeps h = (p : ArgcArgv) → Allowed p (h p)

pub str_param-cases :
    (p : ArgcArgv) (n : ℕ)
    → (str_param p n ≡ (record p { argx = p.argx + 1 }, none))
      ⊎ ((cp : List ℕ) × (str_param p n ≡ (record p { argx = p.argx + 1 }, some cp))
          × (get_elem? p.argv p.argx ≡ some cp)
          × (length cp < n))
unfolding str_param
str_param-cases p n = elim (Option-cases (get_elem? p.argv p.argx)) [
  | inl e ↦ elim (Bool-cases (ltb (length p.argv) (p.argx + 1))) [
    | inl b ↦ inl (rw b)
    | inr b ↦ inl (rw (b, e))
  ]
  | inr (cp, e) ↦ elim (Bool-cases (ltb (length p.argv) (p.argx + 1))) [
    | inl b ↦ inl (rw b)
    | inr b ↦ elim (Bool-cases (ltb n (length cp + 1))) [
      | inl c ↦ inl (rw (b, e, c))
      | inr c ↦ inr (cp, rw (b, e, c), e, ground (arith, c))
    ]
  ]
]

ip_addr-Keeps : Keeps handle_ip_addr
unfolding handle_ip_addr
ip_addr-Keeps p = elim (str_param-cases p 46) [
  | inl e ↦ ground (arith, e)
  | inr (cp, e, g, h) ↦ ground (arith, e)
]

ip_port-Keeps : Keeps handle_ip_port
unfolding handle_ip_port
ip_port-Keeps p = elim (str_param-cases p 6) [
  | inl e ↦ ground (arith, e)
  | inr (cp, e, g, h) ↦ ground (arith, e)
]

netname-Keeps : Keeps handle_netname
unfolding handle_netname
netname-Keeps p = elim (str_param-cases p 17) [
  | inl e ↦ ground (arith, e)
  | inr (cp, e, g, h) ↦ ground (arith, e)
]

agent_passphrase-Keeps : Keeps handle_agent_passphrase
unfolding handle_agent_passphrase
agent_passphrase-Keeps p = elim (str_param-cases p 65) [
  | inl e ↦ ground (arith, e)
  | inr (cp, e, g, h) ↦ ground (arith, e)
]

log_filename-Keeps : Keeps handle_log_filename
unfolding handle_log_filename
log_filename-Keeps p = elim (str_param-cases p 4096) [
  | inl e ↦ ground (arith, e)
  | inr (cp, e, g, h) ↦ ground (arith, e)
]

hashmac-Keeps : Keeps handle_hashmac
unfolding handle_hashmac hex_param
hashmac-Keeps p = elim (str_param-cases p 17) [
  | inl e ↦ ground (arith, e)
  | inr (cp, e, g, h) ↦ ground (arith, e)
]

eui64-Keeps : Keeps handle_eui64
unfolding handle_eui64 hex_param
eui64-Keeps p = elim (str_param-cases p 17) [
  | inl e ↦ ground (arith, e)
  | inr (cp, e, g, h) ↦ ground (arith, e)
]

xpanid-Keeps : Keeps handle_xpanid
unfolding handle_xpanid hex_param
xpanid-Keeps p = elim (str_param-cases p 17) [
  | inl e ↦ ground (arith, e)
  | inr (cp, e, g, h) ↦ ground (arith, e)
]

pskc_bin-Keeps : Keeps handle_pskc_bin
unfolding handle_pskc_bin hex_param
pskc_bin-Keeps p = elim (str_param-cases p 33) [
  | inl e ↦ ground (arith, e)
  | inr (cp, e, g, h) ↦ ground (arith, e)
]

pskd-Keeps : Keeps handle_pskd
unfolding handle_pskd
pskd-Keeps p = elim (str_param-cases p 33) [
  | inl e ↦ ground (arith, e)
  | inr (cp, e, g, h) ↦ ground (arith, e)
]

compute_pskc-Keeps : Keeps handle_compute_pskc
unfolding handle_compute_pskc
compute_pskc-Keeps p = ground arith

commission_device-Keeps : Keeps handle_commission_device
unfolding handle_commission_device
commission_device-Keeps p = ground arith

compute_hashmac-Keeps : Keeps handle_compute_hashmac
unfolding handle_compute_hashmac
compute_hashmac-Keeps p = ground arith

compute_steering-Keeps : Keeps handle_compute_steering
unfolding handle_compute_steering
compute_steering-Keeps p = ground arith

allow_all_joiners-Keeps : Keeps handle_allow_all_joiners
unfolding handle_allow_all_joiners
allow_all_joiners-Keeps p = ground arith

comm_ka_disabled-Keeps : Keeps handle_comm_ka_disabled
unfolding handle_comm_ka_disabled
comm_ka_disabled-Keeps p = ground arith

no_syslog-Keeps : Keeps handle_no_syslog
unfolding handle_no_syslog
no_syslog-Keeps p = ground arith

module _ (strtol : List ℕ → ℤ × ℕ) where
  steering_length-Keeps : Keeps (handle_steering_length strtol)
  unfolding handle_steering_length num_param
  steering_length-Keeps p = elim (str_param-cases p 100) [
    | inl e ↦ ground (arith, e)
    | inr (cp, e, g, h) ↦ ground (arith, e)
  ]

  comm_ka_rate-Keeps : Keeps (handle_comm_ka_rate strtol)
  unfolding handle_comm_ka_rate num_param
  comm_ka_rate-Keeps p = elim (str_param-cases p 100) [
    | inl e ↦ ground (arith, e)
    | inr (cp, e, g, h) ↦ ground (arith, e)
  ]

  comm_envelope_timeout-Keeps : Keeps (handle_comm_envelope_timeout strtol)
  unfolding handle_comm_envelope_timeout num_param
  comm_envelope_timeout-Keeps p = elim (str_param-cases p 100) [
    | inl e ↦ ground (arith, e)
    | inr (cp, e, g, h) ↦ ground (arith, e)
  ]

  debug_level-Keeps : Keeps (handle_debug_level strtol)
  unfolding handle_debug_level num_param
  debug_level-Keeps p = elim (str_param-cases p 100) [
    | inl e ↦ ground (arith, e)
    | inr (cp, e, g, h) ↦ ground (arith, e)
  ]

  abbrev pub AllKeep : List ArgcArgvOpt → Type 0
  AllKeep = All (λ o. Keeps o.handler)

  pub options-AllKeep : AllKeep (options strtol)
  unfolding options add_option
  options-AllKeep = (
    eui64-Keeps,
    (
      pskd-Keeps,
      (
        netname-Keeps,
        (
          xpanid-Keeps,
          (
            agent_passphrase-Keeps,
            (
              ip_addr-Keeps,
              (
                ip_port-Keeps,
                (
                  pskc_bin-Keeps,
                  (
                    hashmac-Keeps,
                    (
                      steering_length-Keeps,
                      (
                        allow_all_joiners-Keeps,
                        (
                          log_filename-Keeps,
                          (
                            compute_pskc-Keeps,
                            (
                              compute_hashmac-Keeps,
                              (
                                compute_steering-Keeps,
                                (
                                  comm_ka_disabled-Keeps,
                                  (
                                    comm_ka_rate-Keeps,
                                    (
                                      no_syslog-Keeps,
                                      (
                                        comm_envelope_timeout-Keeps,
                                        (commission_device-Keeps, (debug_level-Keeps, tt)),
                                      ),
                                    ),
                                  ),
                                ),
                              ),
                            ),
                          ),
                        ),
                      ),
                    ),
                  ),
                ),
              ),
            ),
          ),
        ),
      ),
    ),
  )
