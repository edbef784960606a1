-- ===== src/ArgcArgv/Limits.antt =====
-- commissioner_argcargv.cpp: what holds of the arguments after any command line.
use commissioner.Prelude.{
  ℕ, zero, suc, ◌+◌, ◌≤◌, ◌<◌, ◌≡◌, inl, inr, refl, ap, ◌∙◌, Bool, true, false, Option, none, some,
  List, [], ◌∷◌, arith, subst, sym, length, get_elem?, get_elem?-none, get_elem?-some, All,
  Option-cases, Bool-cases, if◌then◌else◌, ◌==◌,
}
use commissioner.JoinerList.Json.{same_text}
use commissioner.ArgcArgv.{
  CommissionerArgs, Logging, ArgcArgv, Handler, ArgcArgvOpt, ℤ, make, find_opt, parse_next,
  parse_all, resume, Parsed, at_end, failed, more, is_word, help_words,
}
use commissioner.ArgcArgv.Handlers.{options, parse_args, defaults}
use commissioner.ArgcArgv.Keeps.{TextsFit, InRange, Allowed, Keeps, options-AllKeep}

find_opt-Keeps :
    (opts : List ArgcArgvOpt) (arg : List ℕ) (h : Handler)
    → All (λ o. Keeps o.handler) opts
    → find_opt opts arg ≡ some h
    → Keeps h
unfolding find_opt
find_opt-Keeps [] arg h ks e = absurd (ground (arith, e))
find_opt-Keeps (o ∷ opts) arg h (k, ks) e = elim (Bool-cases (same_text arg o.name)) [
  | inl b ↦
      let same : some o.handler ≡ some h = rw b at e in
      subst Keeps (ap (λ x. elim x [ none ↦ h | some y ↦ y ]) same) k
  | inr b ↦ find_opt-Keeps opts arg h ks (rw b at e)
]

-- What one round does: it ends at the last word, or fails, or has read a word.
abbrev Round : ArgcArgv → ArgcArgv × Parsed → Type 0
Round p (q, at_end) = (q ≡ p) × (length p.argv ≤ p.argx)
Round p (q, failed) = Allowed p (q, true)
Round p (q, more) = Allowed p (q, false) × (p.argx < q.argx) × (p.argx < length p.argv)

handled-Round :
    (p : ArgcArgv) (r : ArgcArgv × Bool)
    → p.argx < length p.argv
    → Allowed (record p { argx = p.argx + 1 }) r
    → Round p (r.0, if r.1 then failed else more)
handled-Round p (q, true) h (a, b, c, d) = (a, omega arith, c, d)
handled-Round p (q, false) h (a, b, c, d) = ((a, omega arith, c, d), omega arith, h)

parse_next-Round :
    (opts : List ArgcArgvOpt) (p : ArgcArgv)
    → All (λ o. Keeps o.handler) opts
    → Round p (parse_next opts p)
unfolding parse_next
parse_next-Round opts p ks = elim (Option-cases (get_elem? p.argv p.argx)) [
  | inl e ↦ rw (e, parse_next) (refl, get_elem?-none p.argv p.argx e)
  | inr (arg, e) ↦ elim (Bool-cases (is_word arg help_words)) [
    | inl b ↦ ground (arith, e, b)
    | inr b ↦ elim (Option-cases (find_opt opts arg)) [
      | inl f ↦ ground (arith, e, b, f)
      | inr (h, f) ↦
          let p' : ArgcArgv = record p { argx = p.argx + 1 } in
          rw (e, b, f, parse_next)
            (handled-Round p (h p') (get_elem?-some p.argv p.argx arg e)
              (find_opt-Keeps opts arg h ks f p'))
    ]
  ]
]

abbrev Stops : ArgcArgv → Option (ArgcArgv × Bool) → Type 0
Stops p o =
    (q : ArgcArgv) × (bad : Bool) × (o ≡ some (q, bad))
    × Allowed p (q, bad)
    × (bad ≡ false → length q.argv ≤ q.argx)

Stops-later :
    (p q : ArgcArgv) (o : Option (ArgcArgv × Bool)) → Allowed p (q, false) → Stops q o → Stops p o
Stops-later p q o (a, b, c, d) (q', bad, e, (a', b', c', d'), f) =
    (q', bad, e, (a' ∙ a, omega arith, (λ h. c' (c h)), (λ h. d' (d h))), f)

resume-Stops :
    (rest : ArgcArgv → Option (ArgcArgv × Bool)) (p : ArgcArgv) (r : ArgcArgv × Parsed)
    → Round p r
    → ((q : ArgcArgv)
        → p.argx < q.argx
        → p.argx < length p.argv
        → q.argv ≡ p.argv
        → Stops q (rest q))
    → Stops p (resume rest r)
resume-Stops rest p (q, at_end) (same, l) k = (
  q,
  false,
  refl,
  subst (λ x. Allowed p (x, false)) (sym same) (refl, omega arith, (λ f. f), (λ f. f)),
  λ f. subst (λ x. length x.argv ≤ x.argx) (sym same) l,
)
resume-Stops rest p (q, failed) a k = (q, true, refl, a, λ f. absurd (ground (arith, f)))
resume-Stops rest p (q, more) (a, l, l') k = Stops-later p q (rest q) a (k q l l' a.0)

parse_all-Stops :
    (fuel : ℕ) (opts : List ArgcArgvOpt) (p : ArgcArgv)
    → All (λ o. Keeps o.handler) opts
    → 1 ≤ fuel
    → length p.argv < fuel + p.argx
    → Stops p (parse_all fuel opts p)
unfolding parse_all
parse_all-Stops zero opts p ks z h = absurd (omega arith)
parse_all-Stops (suc fuel) opts p ks z h =
    resume-Stops (parse_all fuel opts) p (parse_next opts p) (parse_next-Round opts p ks)
      (λ q l l' e. parse_all-Stops fuel opts q ks (omega arith) (ground (arith, e)))

-- For any words and any `strtol`, the function `ParseArgs` returns. If the caller's texts fit their
-- arrays, then all texts fit them afterwards and the three numbers are in their ranges, also when
-- it has failed; when it has not failed, every word has been read.
pub parse_args_lem :
    (strtol : List ℕ → ℤ × ℕ) (argv : List (List ℕ)) (user_args : CommissionerArgs) (log : Logging)
    → TextsFit user_args
    → (q : ArgcArgv) × (bad : Bool) × (parse_args strtol argv user_args log ≡ some (q, bad))
      × TextsFit q.args
      × InRange q.args
      × (bad ≡ false → length argv ≤ q.argx)
unfolding parse_args make defaults
parse_args_lem strtol argv user_args log fit = elim (Bool-cases (length argv == 1)) [
  | inl b ↦ (
    make argv (defaults user_args) log,
    true,
    rw b,
    fit,
    ground arith,
    λ f. absurd (ground (arith, f)),
  )
  | inr b ↦
      let p = make argv (defaults user_args) log in
      let (q, bad, e, (a, l, c, d), f) =
        parse_all-Stops (suc (length argv)) (options strtol) p (options-AllKeep strtol)
          (omega arith) (ground arith) in
      (q, bad, rw b e, c fit, d (ground arith), λ g. ground (arith, a, f g))
]
