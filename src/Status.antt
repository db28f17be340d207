-- ===== src/Status.antt =====
-- src/status.h: the throughput counters that the RECORD macro keeps for each thread. A call of
-- record adds to the counters, and once a second's worth of clock ticks has passed it publishes
-- them, prints the rates and starts anew. The clock is an argument: `now` is the time that the
-- test reads, `later` the one that is stored, `feq` the ticks of a second.
pub mod Accounting
mod Tests
use dpdk_perf.Common.{
  ℕ, zero, suc, ◌+◌, ◌-◌, ◌*◌, ◌%◌, ◌^◌, Bool, true, false, List, [], ◌∷◌, Option, none, some, ltb,
  if◌then◌else◌,
}

-- status[2 * STATUS_X] is X_rate, status[2 * STATUS_X + 1] is X_count, status[2 * STATUS_ALL] last.
pub record Status : Type 0 where
  pub call_rate : ℕ
  pub call_count : ℕ
  pub pps_rate : ℕ
  pub pps_count : ℕ
  pub bytes_rate : ℕ
  pub bytes_count : ℕ
  pub last : ℕ

abbrev pub u64 : ℕ → ℕ
u64 n = n % 2 ^ 64

-- The first three statements of record; bytes and pps are u32.
unfoldable pub count : ℕ → ℕ → Status → Status
count bytes pps s = record s {
  bytes_count = u64 (s.bytes_count + bytes);
  pps_count = u64 (s.pps_count + pps);
  call_count = u64 (s.call_count + 1);
}

-- From the test of the clock on. The rates printed are those of the new state.
unfoldable pub publish : ℕ → Status → Status
publish later s = record s {
  bytes_rate = u64 (s.bytes_count * 8);
  pps_rate = s.pps_count;
  call_rate = s.call_count;
  bytes_count = 0;
  pps_count = 0;
  call_count = 0;
  last = later;
}

-- The state, and whether the rates were printed.
unfoldable pub step : ℕ → ℕ → ℕ → ℕ → ℕ → Status → Status × Bool
unfolding count publish
step feq now later bytes pps s =
    let s = count bytes pps s in
    if ltb (u64 (now + 2 ^ 64 - s.last)) feq then (s, false) else (publish later s, true)

-- The unit of the macro _ in record: none, K, M or G, and the divisor that goes with it.
pub data Prefix : Type 0 where
  plain kilo mega giga : Prefix

unfoldable pub prefix : ℕ → Prefix
prefix n =
    if ltb (1024 * 1024 * 1024) n
    then giga
    else if ltb (1024 * 1024) n
    then mega
    else if ltb 1024 n
    then kilo
    else plain

abbrev pub divisor : Prefix → ℕ
divisor plain = 1
divisor kilo = 1024
divisor mega = 1024 * 1024
divisor giga = 1024 * 1024 * 1024

-- One call of RECORD with the times it reads.
pub record Call : Type 0 where
  pub now : ℕ
  pub later : ℕ
  pub bytes : ℕ
  pub pps : ℕ

-- A run of calls by one thread: the last state, and the states whose rates were printed, newest
-- first.
unfoldable pub run : ℕ → List Call → Status × List Status → Status × List Status
unfolding step
run feq [] (s, printed) = (s, printed)
run feq (c ∷ cs) (s, printed) =
    let (s', prints) = step feq c.now c.later c.bytes c.pps s in
    run feq cs (s', if prints then s' ∷ printed else printed)
