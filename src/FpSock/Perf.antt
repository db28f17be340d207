-- ===== src/FpSock/Perf.antt =====
-- start_performance of src/fp-sock/utils.c and the thread that it starts. What the calls of ODP and OFP
-- return is an argument; a print is kept as the number that it shows.
use dpdk_perf.Common.{ℕ, Bool, List, [], ◌∷◌, ltb, if◌then◌else◌}

-- odph_odpthread_params_t with the CPU mask, for ODP_THREAD_CONTROL.
pub record Thread : Type 0 where
  pub instance_id : ℕ
  pub cpus : List ℕ

-- What odph_odpthreads_create is asked for; its result is that of start_performance.
unfoldable pub start_performance : ℕ → ℕ → Thread
start_performance instance_id core_id = record { instance_id = instance_id; cpus = core_id ∷ [] }

-- The body of the loop, with rx_fp_pps.
unfoldable pub show_rate : ℕ → List ℕ → List ℕ
show_rate rx_fp_pps printed = if ltb 0 rx_fp_pps then rx_fp_pps ∷ printed else printed

-- while (1), over the rates that it reads; what is printed is kept newest first.
unfoldable pub show_rates : List ℕ → List ℕ → List ℕ
unfolding show_rate
show_rates [] printed = printed
show_rates (r ∷ rs) printed = show_rates rs (show_rate r printed)

-- perf_client: it has returned -1, or it still runs.
pub data Ends : Type 0 where
  minus_one : Ends
  running : List ℕ → Ends

unfoldable pub perf_client : Bool → List ℕ → Ends
unfolding show_rates
perf_client init_local rates = if init_local then running (show_rates rates []) else minus_one
