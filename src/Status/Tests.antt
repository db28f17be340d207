-- ===== src/Status/Tests.antt =====
-- The counters of src/status.h on concrete calls.
use dpdk_perf.Common.{◌≡◌, refl, List, [], ◌∷◌, arith}
use dpdk_perf.Status.{Status, Call, run}
use dpdk_perf.Status.Accounting.{Accounts, run-Accounts}

abbrev zero_status : Status
zero_status = record {
  call_rate = 0;
  call_count = 0;
  pps_rate = 0;
  pps_count = 0;
  bytes_rate = 0;
  bytes_count = 0;
  last = 0;
}

-- With 100 ticks a second the second call prints.
abbrev calls : List Call
calls =
    record { now = 50; later = 51; bytes = 1500; pps = 1 }
    ∷ record { now = 120; later = 121; bytes = 64; pps = 2 }
    ∷ record { now = 130; later = 131; bytes = 9; pps = 1 }
    ∷ []

prints : (run 100 calls (zero_status, [])).0.bytes_count ≡ 9
unfolding run
prints = refl

run-Accounts_example : Accounts (run 100 calls (zero_status, [])) 1573 4 3
run-Accounts_example =
    run-Accounts 100 calls zero_status [] 0 0 0 (omega arith) (omega arith) (omega arith)
      (omega arith)
