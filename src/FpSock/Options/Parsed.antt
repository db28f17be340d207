-- ===== src/FpSock/Options/Parsed.antt =====
-- What parse_args of src/fp-sock/utils.c makes of any options.
use dpdk_perf.Common.{
  ℕ, ◌≡◌, refl, ap, Bool, true, false, ◌||◌, not, Option, none, some, List, [], ◌∷◌, arith,
  Bool-cases, if◌then◌else◌, inl, inr,
}
use dpdk_perf.Common.Int.{ℤ, pos}
use dpdk_perf.FpSock.Options.{
  ApplArgs, Opt, count, help, performance, other, file, no_args, on_opts, parse_args,
}

-- An option that makes parse_args fail.
abbrev pub is_bad : Opt → Bool
is_bad help = true
is_bad (file [] room) = true
is_bad (file name room) = not room
is_bad _ = false

abbrev pub any_bad : List Opt → Bool
any_bad [] = false
any_bad (o ∷ os) = is_bad o || any_bad os

abbrev pub any_performance : List Opt → Bool
any_performance [] = false
any_performance (performance ∷ os) = true
any_performance (o ∷ os) = any_performance os

-- The last count and the last file, or what is given for none.
abbrev pub last_count : ℤ → List Opt → ℤ
last_count v [] = v
last_count v (count v' ∷ os) = last_count v' os
last_count v (o ∷ os) = last_count v os

abbrev pub last_file : Option (List ℕ) → List Opt → Option (List ℕ)
last_file f [] = f
last_file f (file name room ∷ os) = last_file (some name) os
last_file f (o ∷ os) = last_file f os

on_opts-parsed :
    (os : List Opt) (args : ApplArgs)
    → any_bad os ≡ false
    → on_opts os args ≡ (
      true,
      record {
        core_count = last_count args.core_count os;
        cli_file = last_file args.cli_file os;
        perf_stat = args.perf_stat || any_performance os;
      },
    )
unfolding on_opts
on_opts-parsed [] args h = ground arith
on_opts-parsed (count v ∷ os) args h = on_opts-parsed os (record args { core_count = v }) h
on_opts-parsed (help ∷ os) args h = absurd (ground (arith, h))
on_opts-parsed (performance ∷ os) args h =
    ground (arith, on_opts-parsed os (record args { perf_stat = true }) h)
on_opts-parsed (other ∷ os) args h = on_opts-parsed os args h
on_opts-parsed (file [] room ∷ os) args h = absurd (ground (arith, h))
on_opts-parsed (file (c ∷ cs) true ∷ os) args h =
    on_opts-parsed os (record args { cli_file = some (c ∷ cs) }) h
on_opts-parsed (file (c ∷ cs) false ∷ os) args h = absurd (ground (arith, h))

on_opts_bad : (os : List Opt) (args : ApplArgs) → any_bad os ≡ true → (on_opts os args).0 ≡ false
unfolding on_opts
on_opts_bad [] args h = absurd (ground (arith, h))
on_opts_bad (count v ∷ os) args h = on_opts_bad os (record args { core_count = v }) h
on_opts_bad (help ∷ os) args h = refl
on_opts_bad (performance ∷ os) args h = on_opts_bad os (record args { perf_stat = true }) h
on_opts_bad (other ∷ os) args h = on_opts_bad os args h
on_opts_bad (file [] room ∷ os) args h = refl
on_opts_bad (file (c ∷ cs) true ∷ os) args h =
    on_opts_bad os (record args { cli_file = some (c ∷ cs) }) h
on_opts_bad (file (c ∷ cs) false ∷ os) args h = refl

-- parse_args fails exactly if the options contain -h, a file without a name, or one for which there
-- is no memory. Else the arguments are the last core count (0 if there is none), the last file, and
-- whether performance is asked for anywhere, whatever they were before and whatever options that
-- the program does not know are among them.
pub parse_args-parsed :
    (os : List Opt) (args : ApplArgs)
    → parse_args os args ≡ (
        if any_bad os then (false, (parse_args os args).1) else (
          true,
          record {
            core_count = last_count (pos 0) os;
            cli_file = last_file none os;
            perf_stat = any_performance os;
          },
        ))
unfolding parse_args
parse_args-parsed os args = elim (Bool-cases (any_bad os)) [
  | inl e ↦ rw e (ap (λ ok. (ok, (on_opts os no_args).1)) (on_opts_bad os no_args e))
  | inr e ↦ rw e (on_opts-parsed os no_args e)
]
