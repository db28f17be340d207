-- ===== src/VclServer/Worker.antt =====
-- A worker of src/vcl-test-server/main.c from one epoll_wait to the next: the loop over the events
-- of a wait, and what follows the labels fail and done.
pub mod Sessions
pub mod Outcomes
pub mod Reads
pub mod Places
pub mod Arrivals
pub mod Trace
pub mod Over
pub mod Lost
pub mod Start
pub mod Data
mod Tests
use dpdk_perf.Common.{
  ℕ, zero, suc, ◌+◌, ◌-◌, ◌%◌, ◌^◌, Bool, true, false, List, [], ◌∷◌, if◌then◌else◌, ◌==◌,
}
use dpdk_perf.Common.Int.{ℤ, pos, negsuc}
use dpdk_perf.VclServer.Server.{Worker, TestLib}
use dpdk_perf.VclServer.Options.{Proto, udp}
use dpdk_perf.VclServer.Loop.{Setup, Answers, Event, Ends, next, done, fail, fault, on_event}

-- What vppcom_epoll_wait returns: an error, no event in time, or events, each with the answers of
-- the library while it is handled.
pub data Wait : Type 0 where
  broken timed_out : Wait
  ready : List (Answers × Event) → Wait

-- With VPPCOM_PROTO_UDP a readable event is a datagram.
abbrev pub is_datagram : Proto → Event → Bool
is_datagram proto e = elim proto [ udp ↦ e.epollin | _ ↦ false ]

module _ (lib : TestLib) (setup : Setup) (proto : Proto) where
  -- The body of the for loop. A datagram is only counted, in the counters of VclServer.Udp, and the
  -- worker stays as it is.
  unfoldable pub dispatch : Answers → Event → Worker → Ends
  unfolding on_event
  dispatch a e wrk = if is_datagram proto e then next wrk else on_event lib setup a e wrk

  -- for (i = 0; i < num_ev; i++)
  unfoldable pub on_events : List (Answers × Event) → Worker → Ends
  unfolding dispatch
  on_events [] wrk = next wrk
  on_events ((a, e) ∷ es) wrk = elim (dispatch a e wrk) [
    | next wrk' ↦ on_events es wrk'
    | done wrk' ↦ done wrk'
    | fail wrk' ↦ fail wrk'
    | fault ↦ fault
  ]

  -- The body of while (1).
  unfoldable pub on_wait : Wait → Worker → Ends
  unfolding on_events
  on_wait broken wrk = fail wrk
  on_wait timed_out wrk = next wrk
  on_wait (ready es) wrk = on_events es wrk

  -- while (1); `next` is a loop that still runs when the waits end.
  unfoldable pub vts_worker_loop : List Wait → Worker → Ends
  unfolding on_wait
  vts_worker_loop [] wrk = next wrk
  vts_worker_loop (w ∷ ws) wrk = elim (on_wait w wrk) [
    | next wrk' ↦ vts_worker_loop ws wrk'
    | done wrk' ↦ done wrk'
    | fail wrk' ↦ fail wrk'
    | fault ↦ fault
  ]
