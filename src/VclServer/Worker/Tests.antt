-- ===== src/VclServer/Worker/Tests.antt =====
-- A worker of src/vcl-test-server/main.c that serves one client and ends when it hangs up.
use dpdk_perf.Common.{◌≡◌, refl, true, List, [], ◌∷◌, arith, inl, inr, some}
use dpdk_perf.VclServer.Pool.{new_conn, conn_pool_expand}
use dpdk_perf.VclServer.Server.{update_fd}
use dpdk_perf.VclServer.Loop.{next, on_event}
use dpdk_perf.VclServer.Worker.Data.{lib, setup, waiting, nobody, answers, arrival, hang_up}
use dpdk_perf.VclServer.Worker.{Wait, timed_out, ready, vts_worker_loop}
use dpdk_perf.VclServer.Worker.Sessions.{IsServed}
use dpdk_perf.VclServer.Options.{tcp, udp}
use dpdk_perf.VclServer.Worker.Start.{
  Calls, zero_worker, vts_worker_init, no_sessions, worker-EndsWell, worker-Balanced,
}
use dpdk_perf.VclServer.Worker.Lost.{Balanced, lost_over}
use dpdk_perf.VclServer.Pool.{conn_pool_alloc}
use dpdk_perf.VclServer.Worker.Trace.{Served, sessions_after, on_event-Served, EndsWell}
use dpdk_perf.VclServer.Worker.Over.{AllReported, sessions_over}

waiting-IsServed : IsServed waiting nobody
unfolding new_conn
waiting-IsServed = record {
  serves = (λ e. absurd (ground (arith, e)), (λ e. absurd (ground (arith, e)), tt));
  counted = refl;
  few = omega arith;
}

on_event-Served_example :
    Served lib setup 0
      (sessions_after lib setup answers arrival waiting nobody)
      (on_event lib setup answers arrival waiting)
on_event-Served_example =
    on_event-Served lib setup answers arrival waiting nobody (inl (refl, omega arith))
      waiting-IsServed

abbrev visit : List Wait
visit = ready ((answers, arrival) ∷ []) ∷ timed_out ∷ ready ((answers, hang_up) ∷ []) ∷ []

visit_reported : AllReported lib setup tcp visit waiting nobody
unfolding vts_worker_loop new_conn update_fd
visit_reported = (((λ _. inl (refl, omega arith)), tt), (((λ _. inr (refl, refl)), tt), tt))

abbrev all_well : Calls
all_well = record {
  memory = true;
  registered = true;
  created = true;
  bound = true;
  listens = true;
  epoll = true;
  added = true;
}

started : vts_worker_init setup 1 0 tcp all_well zero_worker ≡ some waiting
unfolding vts_worker_init new_conn conn_pool_expand
started = refl

worker-EndsWell_example :
    EndsWell lib setup
      (sessions_over lib setup tcp visit waiting (no_sessions true 2))
      (vts_worker_loop lib setup tcp visit waiting)
worker-EndsWell_example =
    worker-EndsWell lib setup 1 0 tcp all_well waiting visit started visit_reported

worker-Balanced_example :
    Balanced (lost_over lib setup tcp visit waiting) (vts_worker_loop lib setup tcp visit waiting)
worker-Balanced_example =
    worker-Balanced lib setup 1 0 tcp all_well waiting visit started visit_reported

-- The client of the visit hangs up, and its place stays in use.
one_lost : lost_over lib setup tcp visit waiting ≡ 1
unfolding vts_worker_loop new_conn update_fd conn_pool_alloc
one_lost = refl

-- For UDP a readable event of the listener is a datagram, and no client is accepted.
datagram_ignored :
    vts_worker_loop lib setup udp (ready ((answers, arrival) ∷ []) ∷ []) waiting ≡ next waiting
unfolding vts_worker_loop
datagram_ignored = refl
