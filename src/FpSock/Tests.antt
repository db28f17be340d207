-- ===== src/FpSock/Tests.antt =====
-- Runs of main of src/fp-sock/main.c.
use dpdk_perf.Common.{◌≡◌, refl, true, false, [], ◌∷◌, ◌&&◌, not, if◌then◌else◌}
use dpdk_perf.Common.Int.{pos}
use dpdk_perf.FpSock.Startup.{
  Outcomes, main, server_thread, cli_thread, num_workers, exit_success, exit_failure,
}
use dpdk_perf.FpSock.Startup.Cleanup.{
  held_after, has_workers, side_threads, main_cleans_up, serves, is_success, can_serve, main_status,
}

-- All goes well, but too few workers are created.
abbrev few_workers : Outcomes
few_workers = record {
  args_ok = true;
  signals_ok = true;
  odp_global_ok = true;
  odp_local_ok = true;
  mask_ok = true;
  ofp_global_ok = true;
  ofp_local_ok = true;
  created = false;
  cli_ok = true;
  perf_stat = false;
  perf_ok = true;
  server_ok = true;
}

-- A run with the server and without the performance thread.
abbrev all_well : Outcomes
all_well = record few_workers { created = true }

main_cleans_up_example :
    held_after (main all_well).1 [] ≡ (if has_workers all_well then side_threads all_well else [])
main_cleans_up_example = main_cleans_up all_well

two_left : side_threads all_well ≡ server_thread ∷ cli_thread ∷ []
two_left = refl

main_status_example :
    ((main few_workers).0 ≡ (if is_success few_workers then exit_success else exit_failure))
    × (serves (main few_workers).1 ≡ (is_success few_workers && can_serve few_workers))
main_status_example = main_status few_workers

-- Success without a server.
hidden : is_success few_workers && not (can_serve few_workers) ≡ true
hidden = refl

seven : num_workers (pos 0) 8 ≡ pos 7
unfolding num_workers
seven = refl
