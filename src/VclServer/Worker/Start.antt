-- ===== src/VclServer/Worker/Start.antt =====
-- vts_worker_init of src/vcl-test-server/main.c, and a worker from there to its end. What the calls of
-- the VCL library return is an argument.
use dpdk_perf.Common.{
  ℕ, ◌+◌, ◌≡◌, refl, sym, ap, subst, Bool, true, false, ◌||◌, ◌&&◌, Option, none, some, List, [],
  arith, replicate, if◌then◌else◌, ◌==◌,
}
use dpdk_perf.VclServer.Pool.{Cfg, new_conn, conn_pool_expand}
use dpdk_perf.VclServer.Server.{Worker, TestLib}
use dpdk_perf.VclServer.Options.{Proto, udp}
use dpdk_perf.VclServer.Loop.{Setup}
use dpdk_perf.VclServer.Worker.{Wait, vts_worker_loop}
use dpdk_perf.VclServer.Worker.Places.{count_open-append, Serves-replicate}
use dpdk_perf.VclServer.Worker.Sessions.{IsServed}
use dpdk_perf.VclServer.Pool.Alloc.{in_use}
use dpdk_perf.VclServer.Pool.Used.{in_use-new}
use dpdk_perf.VclServer.Worker.Lost.{Balances, Balanced, lost_over, vts_worker_loop-Balanced}
use dpdk_perf.VclServer.Worker.Trace.{EndsWell}
use dpdk_perf.VclServer.Worker.Over.{AllReported, sessions_over, vts_worker_loop-EndsWell}

-- The results of realloc, vppcom_worker_register, and of the creation, binding and listening of the
-- listener and the creation of the epoll set with the listener in it.
pub record Calls : Type 0 where
  pub memory : Bool
  pub registered : Bool
  pub created : Bool
  pub bound : Bool
  pub listens : Bool
  pub epoll : Bool
  pub added : Bool

-- The worker that calloc gives.
abbrev pub zero_worker : Worker
zero_worker = record { conn_pool = []; nfds = 0; writes = []; closed = []; results = [] }

-- vts_worker_init of the worker with a number, for VCL_TEST_CFG_MAX_TEST_SESS + 1 connections; none is
-- vtfail, which ends the process. The counter active_workers is in VclServer.Threads.
unfoldable pub vts_worker_init : Setup → ℕ → ℕ → Proto → Calls → Worker → Option Worker
vts_worker_init setup max_test_sess wrk_index proto c wrk =
    let pool =
      conn_pool_expand setup.new_cfg setup.new_buf_size c.memory (max_test_sess + 1)
        wrk.conn_pool in
    let register = wrk_index == 0 || c.registered in
    let listen : Bool = elim proto [ udp ↦ true | _ ↦ c.listens ] in
    if register && (c.created && (c.bound && (listen && (c.epoll && c.added))))
    then some (record wrk { conn_pool = pool })
    else none

-- The sessions of a worker that has none.
abbrev pub no_sessions : Bool → ℕ → List Bool
no_sessions memory n = if memory then replicate n false else []

new-IsServed :
    (cfg : Cfg) (size : ℕ) (memory : Bool) (n : ℕ)
    → IsServed
        (record zero_worker { conn_pool = conn_pool_expand cfg size memory n [] })
        (no_sessions memory n)
unfolding conn_pool_expand
new-IsServed cfg size false n = record { serves = tt; counted = refl; few = omega arith }
new-IsServed cfg size true n = record {
  serves = Serves-replicate n (new_conn cfg size);
  counted = sym (count_open-append [] n);
  few = omega (arith, count_open-append [] n);
}

new-Balances :
    (cfg : Cfg) (size : ℕ) (memory : Bool) (n : ℕ)
    → Balances 0 (record zero_worker { conn_pool = conn_pool_expand cfg size memory n [] })
unfolding conn_pool_expand in_use
new-Balances cfg size false n = refl
new-Balances cfg size true n = in_use-new cfg size n

given_if : (b : Bool) (w v : Worker) → (if b then some w else none) ≡ some v → w ≡ v
given_if true w v e = ap (λ o. elim o [ none ↦ w | some x ↦ x ]) e
given_if false w v e = absurd (ground (arith, e))

-- A worker of any protocol that vts_worker_init has set up has no session, and over any sequence of
-- waits and of events that epoll may report, datagrams among them if the protocol is UDP, with never
-- more than 2 ^ 32 - 1 sessions at once, its loop never touches a place outside its pool. At its end or between two waits nfds is the number of open
-- sessions, each at a place of the pool that is in use, and it is done only with no open session.
pub worker-EndsWell :
    (lib : TestLib) (setup : Setup) (max_test_sess wrk_index : ℕ) (proto : Proto) (c : Calls)
    (wrk : Worker) (ws : List Wait)
    → vts_worker_init setup max_test_sess wrk_index proto c zero_worker ≡ some wrk
    → let bs = no_sessions c.memory (max_test_sess + 1) in
      AllReported lib setup proto ws wrk bs
      → EndsWell lib setup
          (sessions_over lib setup proto ws wrk bs)
          (vts_worker_loop lib setup proto ws wrk)
unfolding vts_worker_init
worker-EndsWell lib setup max_test_sess wrk_index proto c wrk ws e r =
    let served = new-IsServed setup.new_cfg setup.new_buf_size c.memory (max_test_sess + 1) in
    let it = given_if _ _ wrk e in
    let bs = no_sessions c.memory (max_test_sess + 1) in
    vts_worker_loop-EndsWell lib setup proto ws wrk bs r (subst (λ w. IsServed w bs) it served)

-- For a worker of any protocol that vts_worker_init has set up, and over any sequence of waits and of
-- events that epoll may report, datagrams among them if the protocol is UDP, with never more than 2 ^ 32 - 1 sessions at once, the places of the pool in use
-- at the end of its loop or between two waits are as many as the sessions that nfds counts and the
-- places lost until then: one for each client that got a place but was not accepted or not added to
-- epoll, and one for each session that hung up.
pub worker-Balanced :
    (lib : TestLib) (setup : Setup) (max_test_sess wrk_index : ℕ) (proto : Proto) (c : Calls)
    (wrk : Worker) (ws : List Wait)
    → vts_worker_init setup max_test_sess wrk_index proto c zero_worker ≡ some wrk
    → AllReported lib setup proto ws wrk (no_sessions c.memory (max_test_sess + 1))
    → Balanced (lost_over lib setup proto ws wrk) (vts_worker_loop lib setup proto ws wrk)
unfolding vts_worker_init
worker-Balanced lib setup max_test_sess wrk_index proto c wrk ws e r =
    let n = max_test_sess + 1 in
    let it = given_if _ _ wrk e in
    let served = new-IsServed setup.new_cfg setup.new_buf_size c.memory n in
    let balances = new-Balances setup.new_cfg setup.new_buf_size c.memory n in
    let same : lost_over lib setup proto ws wrk + 0 ≡ lost_over lib setup proto ws wrk =
      omega arith in
    subst (λ m. Balanced m (vts_worker_loop lib setup proto ws wrk)) same
      (vts_worker_loop-Balanced lib setup proto ws wrk (no_sessions c.memory n) 0 r
        (subst (λ w. IsServed w (no_sessions c.memory n)) it served)
        (subst (Balances 0) it balances))
