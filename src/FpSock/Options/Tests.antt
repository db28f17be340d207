-- ===== src/FpSock/Options/Tests.antt =====
-- Options of src/fp-sock/utils.c, with the -i that its usage text asks for.
use dpdk_perf.Common.{◌≡◌, refl, if◌then◌else◌, true, false, none, List, [], ◌∷◌}
use dpdk_perf.Common.Int.{pos}
use dpdk_perf.FpSock.Options.{Opt, count, performance, other, file, no_args, parse_args}
use dpdk_perf.FpSock.Options.Parsed.{
  any_bad, last_count, last_file, any_performance, parse_args-parsed,
}

abbrev options : List Opt
options = other ∷ count (pos 2) ∷ file (97 ∷ []) true ∷ performance ∷ count (pos 4) ∷ []

parse_args-parsed_example : parse_args options no_args ≡ (
    if any_bad options then (false, (parse_args options no_args).1) else (
      true,
      record {
        core_count = last_count (pos 0) options;
        cli_file = last_file none options;
        perf_stat = any_performance options;
      },
    ))
parse_args-parsed_example = parse_args-parsed options no_args

four : (parse_args options no_args).1.core_count ≡ pos 4
unfolding parse_args
four = refl
