-- ===== src/VclServer/Udp.antt =====
-- vts_worker_loop of src/vcl-test-server/main.c for UDP: a readable event is a datagram that is
-- counted and dropped; any other event goes the way of the stream transports. The clock is a
-- parameter with its test for a second gone by, since the program keeps it in a double; so is
-- sizeof(session_dgram_hdr_t).
pub mod Counted
mod Tests
use dpdk_perf.Common.{ℕ, ◌+◌, ◌-◌, ◌*◌, ◌%◌, ◌^◌, Bool, true, false, List, [], ◌∷◌, if◌then◌else◌}
use dpdk_perf.Common.Int.{ℤ, to_u64}
use dpdk_perf.VclServer.Server.{Worker, TestLib}
use dpdk_perf.VclServer.Loop.{Setup, Answers, Event, Ends, next, done, fail, fault, on_event}

-- status_t of this file.
pub record Status (Clock : Type 0) : Type 0 where
  pub last : Clock
  pub speed : ℕ
  pub total : ℕ
  pub pps : ℕ
  pub cur_pps : ℕ

-- What vppcom_session_read_segments returns, and the two times that are read.
pub record Datagram (Clock : Type 0) : Type 0 where
  pub rx_bytes : ℤ
  pub now : Clock
  pub later : Clock

module _ {Clock : Type 0} (header : ℕ) (second_since : Clock → Clock → Bool) where
  -- rx_bytes is an int, the size of the header a size_t.
  unfoldable pub count : ℤ → Status Clock → Status Clock
  count rx_bytes s = record s {
    total = (s.total + to_u64 rx_bytes + 2 ^ 64 - header) % 2 ^ 64;
    cur_pps = (s.cur_pps + 1) % 2 ^ 64;
  }

  unfoldable pub publish : Clock → Status Clock → Status Clock
  publish later s = record {
    last = later;
    speed = s.total * 8 % 2 ^ 64;
    total = 0;
    pps = s.cur_pps;
    cur_pps = 0;
  }

  -- The state after a datagram, and the states whose speed and pps were printed, newest first.
  unfoldable pub receive :
      Datagram Clock → Status Clock × List (Status Clock) → Status Clock × List (Status Clock)
  unfolding count publish
  receive d (s, printed) =
      let s = count d.rx_bytes s in
      if second_since d.now s.last
      then (publish d.later s, publish d.later s ∷ printed)
      else (s, printed)

  -- The loop over the events of a wait.
  unfoldable pub udp_events :
      TestLib
      → Setup
      → List (Datagram Clock × (Answers × Event))
      → Worker
      → Status Clock × List (Status Clock)
      → Ends × (Status Clock × List (Status Clock))
  unfolding receive on_event
  udp_events lib setup [] wrk st = (next wrk, st)
  udp_events lib setup ((d, (a, e)) ∷ es) wrk st =
      let rest = udp_events lib setup es wrk (receive d st) in
      if e.epollin then rest else (elim (on_event lib setup a e wrk) [
        | next wrk' ↦ udp_events lib setup es wrk' st
        | done wrk' ↦ (done wrk', st)
        | fail wrk' ↦ (fail wrk', st)
        | fault ↦ (fault, st)
      ])
