-- ===== src/FpSock/Options.antt =====
-- src/fp-sock/utils.c: parse_args, and the signal handlers that setup_exit installs. What getopt_long
-- and malloc return is part of the options, what sigfillset and sigaction return part of the outcomes.
pub mod Parsed
mod Tests
use dpdk_perf.Common.{ℕ, Bool, true, false, Option, none, some, List, [], ◌∷◌, ◌&&◌, if◌then◌else◌}
use dpdk_perf.Common.Int.{ℤ, pos}

-- appl_args_t
pub record ApplArgs : Type 0 where
  pub core_count : ℤ
  pub cli_file : Option (List ℕ)
  pub perf_stat : Bool

-- A result of getopt_long: `count v` has atoi(optarg), `file` its name, and whether malloc gives the
-- room for it; `other` is any option that is not in the list.
pub data Opt : Type 0 where
  count : ℤ → Opt
  help performance other : Opt
  file : List ℕ → Bool → Opt

-- The memset of parse_args.
abbrev pub no_args : ApplArgs
no_args = record { core_count = pos 0; cli_file = none; perf_stat = false }

-- The body of the loop: true is the next turn, false the return of EXIT_FAILURE.
unfoldable pub on_opt : Opt → ApplArgs → Bool × ApplArgs
on_opt (count v) args = (true, record args { core_count = v })
on_opt help args = (false, args)
on_opt performance args = (true, record args { perf_stat = true })
on_opt (file [] room) args = (false, args)
on_opt (file (c ∷ cs) true) args = (true, record args { cli_file = some (c ∷ cs) })
on_opt (file (c ∷ cs) false) args = (false, record args { cli_file = none })
on_opt other args = (true, args)

unfoldable pub on_opts : List Opt → ApplArgs → Bool × ApplArgs
unfolding on_opt
on_opts [] args = (true, args)
on_opts (o ∷ os) args =
    let (ok, args) = on_opt o args in
    let rest = on_opts os args in if ok then rest else (false, args)

-- True is EXIT_SUCCESS.
unfoldable pub parse_args : List Opt → ApplArgs → Bool × ApplArgs
unfolding on_opts
parse_args os args = on_opts os no_args

-- The signals that are handled, and the outcomes of the two calls for one of them.
pub data Signal : Type 0 where
  sigint sigquit sigterm : Signal

pub record Outcome : Type 0 where
  pub filled : Bool
  pub installed : Bool

-- linux_sigaction: whether it succeeds, and the signals with the handler, newest first.
unfoldable pub linux_sigaction : Outcome → Signal → List Signal → Bool × List Signal
linux_sigaction o s handled =
    if o.filled && o.installed then (true, s ∷ handled) else (false, handled)

-- ofp_sigactions_set, over the outcomes for SIGINT, SIGQUIT and SIGTERM.
unfoldable pub ofp_sigactions_set : Outcome → Outcome → Outcome → List Signal → Bool × List Signal
unfolding linux_sigaction
ofp_sigactions_set o1 o2 o3 handled =
    let (ok1, handled1) = linux_sigaction o1 sigint handled in
    let (ok2, handled2) = linux_sigaction o2 sigquit handled1 in
    let third = linux_sigaction o3 sigterm handled2 in
    if ok1 then (if ok2 then third else (false, handled2)) else (false, handled1)

-- True is EXIT_SUCCESS.
unfoldable pub setup_exit : Outcome → Outcome → Outcome → List Signal → Bool × List Signal
unfolding ofp_sigactions_set
setup_exit o1 o2 o3 handled = ofp_sigactions_set o1 o2 o3 handled
