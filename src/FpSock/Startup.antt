-- ===== src/FpSock/Startup.antt =====
-- main of src/fp-sock/main.c: how many workers it asks for, and the order in which it sets up and
-- tears down ODP and OFP. The outcome of each library call is an argument; the calls that set up,
-- stop or tear down are kept in order. Prints and the choice of scheduling options are left out.
pub mod Cleanup
use dpdk_perf.Common.{
  ℕ, zero, suc, ◌+◌, ◌-◌, Bool, true, false, ◌&&◌, List, [], ◌∷◌, ◌++◌, ltb, ◌==◌, if◌then◌else◌,
}
use dpdk_perf.Common.Int.{ℤ, pos, negsuc}

-- MAX_WORKERS
abbrev pub max_workers : ℕ
max_workers = 32

-- num_workers, from params.core_count and odp_cpu_count().
unfoldable pub num_workers : ℤ → ℕ → ℤ
num_workers (negsuc n) core_count = negsuc n
num_workers (pos params_count) core_count =
    let n =
      if params_count == 0
      then (if ltb 1 core_count then core_count - 1 else core_count)
      else params_count in
    pos (if ltb max_workers n then max_workers else n)

-- What main sets up, the threads that it starts included.
pub data Resource : Type 0 where
  odp_global odp_local ofp_global ofp_local workers : Resource
  cli_thread perf_thread server_thread : Resource

-- `init r ok` is the call that sets r up, with its success.
pub data Call : Type 0 where
  init : Resource → Bool → Call
  term : Resource → Call
  stop_processing : Call

-- The outcomes of the calls, in the order of main. A `term` stands for what main calls to join or
-- tear down, whatever that returns. `created` is whether as many workers were
-- created as asked for.
pub record Outcomes : Type 0 where
  pub args_ok : Bool
  pub signals_ok : Bool
  pub odp_global_ok : Bool
  pub odp_local_ok : Bool
  pub mask_ok : Bool
  pub ofp_global_ok : Bool
  pub ofp_local_ok : Bool
  pub created : Bool
  pub cli_ok : Bool
  pub perf_stat : Bool
  pub perf_ok : Bool
  pub server_ok : Bool

-- EXIT_SUCCESS and EXIT_FAILURE.
abbrev pub exit_success : ℕ
exit_success = 0

abbrev pub exit_failure : ℕ
exit_failure = 1

-- From the label EXIT1 on.
abbrev exit1 : List Call
exit1 = term ofp_global ∷ term odp_local ∷ term odp_global ∷ []

-- From the label EXIT0 on.
abbrev exit0 : List Call
exit0 = term ofp_local ∷ exit1

-- ofp_stop_processing, odph_odpthreads_join and goto EXIT0.
abbrev give_up : List Call
give_up = stop_processing ∷ term workers ∷ exit0

-- From the server thread on, whose creation is not checked: the join waits for the workers.
abbrev serve : Bool → List Call
serve server_ok = init server_thread server_ok ∷ term workers ∷ exit0

-- From the creation of the workers on. odph_odpthreads_join also joins those that were created
-- when there were too few.
unfoldable pub run_workers : Outcomes → List Call
run_workers o =
    init workers true
    ∷ (if o.created
        then init cli_thread o.cli_ok
          ∷ (if o.cli_ok
              then (if o.perf_stat
                  then init perf_thread o.perf_ok
                    ∷ (if o.perf_ok then serve o.server_ok else give_up)
                  else serve o.server_ok)
              else give_up)
        else give_up)

-- main: its exit status and its calls.
unfoldable pub main : Outcomes → ℕ × List Call
unfolding run_workers
main o =
    if o.args_ok && o.signals_ok
    then (if o.odp_global_ok
        then (if o.odp_local_ok
            then (if o.mask_ok
                then (
                  exit_success,
                  init odp_global true
                      ∷ init odp_local true
                      ∷ init ofp_global o.ofp_global_ok
                      ∷ (if o.ofp_global_ok
                          then init ofp_local o.ofp_local_ok
                            ∷ (if o.ofp_local_ok then run_workers o else exit0)
                          else exit1),
                )
                else (
                  exit_failure,
                  init odp_global true
                      ∷ init odp_local true
                      ∷ term odp_local
                      ∷ term odp_global
                      ∷ [],
                ))
            else (exit_failure, init odp_global true ∷ init odp_local false ∷ term odp_global ∷ []))
        else (exit_failure, init odp_global false ∷ []))
    else (exit_failure, [])
