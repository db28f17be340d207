-- ===== src/FpSock/Startup/Cleanup.antt =====
-- What main of src/fp-sock/main.c leaves behind, and what it reports.
use dpdk_perf.Common.{
  ℕ, ◌≤◌, ◌<◌, ◌≡◌, Bool, true, false, List, [], ◌∷◌, arith, if◌then◌else◌, ◌&&◌, ◌||◌, not,
}
use dpdk_perf.Common.Int.{pos}
use dpdk_perf.FpSock.Startup.{
  Resource, odp_global, odp_local, ofp_global, ofp_local, workers, cli_thread, perf_thread,
  server_thread, Call, init, term, stop_processing, Outcomes, main, num_workers, max_workers,
  exit_success, exit_failure,
}

abbrev pub same : Resource → Resource → Bool
same odp_global odp_global = true
same odp_local odp_local = true
same ofp_global ofp_global = true
same ofp_local ofp_local = true
same workers workers = true
same cli_thread cli_thread = true
same perf_thread perf_thread = true
same server_thread server_thread = true
same _ _ = false

-- A thread beside the workers.
abbrev pub is_side_thread : Resource → Bool
is_side_thread cli_thread = true
is_side_thread perf_thread = true
is_side_thread server_thread = true
is_side_thread _ = false

-- Tearing down what was set up last, threads beside the workers aside; anything else stays.
abbrev pub release : Resource → List Resource → List Resource
release r [] = []
release r (x ∷ held) =
    let rest = release r held in
    if same r x then held else if is_side_thread x then x ∷ rest else x ∷ held

-- What is still set up after some calls, the last set up first.
abbrev pub held_after : List Call → List Resource → List Resource
held_after [] held = held
held_after (init r true ∷ cs) held = held_after cs (r ∷ held)
held_after (init r false ∷ cs) held = held_after cs held
held_after (term r ∷ cs) held = held_after cs (release r held)
held_after (stop_processing ∷ cs) held = held_after cs held

-- The threads beside the workers that are started, the last one first.
abbrev pub side_threads : Outcomes → List Resource
side_threads o =
    let cli = if o.cli_ok then cli_thread ∷ [] else [] in
    let perf = if o.cli_ok && o.perf_stat && o.perf_ok then perf_thread ∷ cli else cli in
    if o.cli_ok && (not o.perf_stat || o.perf_ok) && o.server_ok then server_thread ∷ perf else perf

-- Whether main comes to start threads beside the workers.
abbrev pub has_workers : Outcomes → Bool
has_workers o =
    o.args_ok && o.signals_ok && o.odp_global_ok && o.odp_local_ok && o.mask_ok && o.ofp_global_ok
    && o.ofp_local_ok && o.created

-- Whichever call fails, main tears down all of ODP and OFP that it set up and the workers, in the
-- reverse order; what it leaves are just the threads for the command line, for the performance
-- counters and for the server that it started, none of which it joins.
pub main_cleans_up :
    (o : Outcomes) → held_after (main o).1 [] ≡ (if has_workers o then side_threads o else [])
unfolding main
main_cleans_up o = ground arith

-- Whether main asked for the thread of the echo server.
abbrev pub serves : List Call → Bool
serves [] = false
serves (init server_thread ok ∷ cs) = true
serves (_ ∷ cs) = serves cs

-- What main needs to exit with success, and what the server needs to run.
abbrev pub is_success : Outcomes → Bool
is_success o = o.args_ok && o.signals_ok && o.odp_global_ok && o.odp_local_ok && o.mask_ok

abbrev pub can_serve : Outcomes → Bool
can_serve o =
    o.ofp_global_ok && o.ofp_local_ok && o.created && o.cli_ok && (not o.perf_stat || o.perf_ok)

-- main exits with success exactly if the arguments, the signals, ODP and the CPU mask are fine; it asks
-- for the thread of the server exactly if in that case also OFP can be initialised, enough workers are
-- created, the command line thread starts and, where it is asked for, the performance thread.
pub main_status :
    (o : Outcomes)
    → ((main o).0 ≡ (if is_success o then exit_success else exit_failure))
      × (serves (main o).1 ≡ (is_success o && can_serve o))
unfolding main
main_status o = ground arith

-- Unless the command line asks for a negative number, main asks for at most 32 workers; left to
-- itself it asks for at least one on a machine with a CPU, and leaves one CPU free if it has more.
pub num_workers_bounds :
    (params_count core_count n : ℕ)
    → num_workers (pos params_count) core_count ≡ pos n
    → (n ≤ max_workers)
      × (0 < core_count → 0 < n)
      × (params_count ≡ 0 → 1 < core_count → n < core_count)
unfolding num_workers
num_workers_bounds params_count core_count n h = ground arith
