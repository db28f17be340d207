-- ===== src/UdpEcho/Main/Tests.antt =====
-- A client and a server of src/udp-echo/main.c from the command line on, over the pool and the table of
-- UdpEcho/Data.
use dpdk_perf.Common.{
  ℕ, zero, suc, ◌+◌, ◌^◌, ◌≤◌, ◌<◌, ◌≡◌, refl, ap, ◌∙◌, Bool, true, false, Option, none, some, List,
  [], ◌∷◌, All, All-replicate, replicate, arith, length, length-append, length-replicate,
}
use dpdk_perf.Common.Int.{pos}
use dpdk_perf.UdpEcho.Session.{
  start, attached, ready, AcceptedMsg, ConnectedMsg, on_accepted, on_connected, on_disconnected,
}
use dpdk_perf.UdpEcho.Send.{Answer}
use dpdk_perf.UdpEcho.Send.Stream.{IsEager}
use dpdk_perf.UdpEcho.Echo.Bytes.{three_rounds, round_law}
use dpdk_perf.UdpEcho.Server.{Job, broken, rx, control, Turn}
use dpdk_perf.UdpEcho.Options.{Opt, client, no_return, fifo_size, defaults}
use dpdk_perf.UdpEcho.Options.Settled.{settled}
use dpdk_perf.UdpEcho.Data.{Slots, pool, table}
use dpdk_perf.UdpEcho.Main.{
  unformat_uri, Vpp, ClientRun, ServerRun, main, get_sessions, preallocate,
}
use dpdk_perf.UdpEcho.Main.Preallocated.{preallocate-free}
use dpdk_perf.UdpEcho.Main.Whole.{
  HasDelivered, HasServed, main_client-HasDelivered, main_server-HasServed,
}

-- A VPP that accepts both, and reads every URI as one of IPv4, in the byte order of the net.
abbrev vpp : Vpp
vpp = record {
  connects = λ name. true;
  my_client_index = 5;
  with_ip4 = λ u. some ((6, 0, 1, 1), 1234);
  with_ip6 = λ u. none;
  clib_host_to_net_u16 = λ p. p;
  client_session_index = λ f. 0;
}

abbrev answer : ConnectedMsg
answer = record {
  retval = 0;
  server_rx_fifo = 100;
  server_tx_fifo = 200;
  ct_rx_fifo = 0;
  vpp_event_queue_address = 4096;
  lcl_ip = 1;
  is_ip4 = true;
  lcl_port = 1234;
}

-- A FIFO that takes one byte of those that it is offered.
abbrev slow : Answer
slow = record { enq_space = 2; app_send = λ n. pos (dpdk_perf.Common.min n 1) }

abbrev client_run : ClientRun pool table
client_run = record {
  states = start ∷ attached ∷ [];
  turns = record { event = on_connected answer; time_up = false } ∷ [];
  rounds = replicate 1024 (false, slow);
}

abbrev hello : AcceptedMsg
hello = record {
  handle = 77;
  context = 6;
  vpp_event_queue_address = 4096;
  server_rx_fifo = 100;
  server_tx_fifo = 200;
  ip = 1;
  is_ip4 = true;
  port = 1234;
}

-- A session opens, three bytes arrive for it, the queue fails once, and the session goes.
abbrev turn : Job → Turn
turn j = record { job = j; stop = false; print = true }

abbrev server_run : ServerRun pool table
server_run = record {
  before = start ∷ ready ∷ [];
  meanwhile = ready ∷ [];
  turns =
      turn (control (on_accepted hello))
      ∷ turn (rx 0 3 three_rounds)
      ∷ turn broken
      ∷ record {
        job = control (on_disconnected (record { handle = 77; context = 6 }));
        stop = true;
        print = false;
      }
      ∷ [];
  after = start ∷ [];
}

abbrev as_client : List Opt
as_client = fifo_size 4 ∷ client ∷ []

eager : All IsEager client_run.rounds
eager =
    let once : IsEager (false, slow) = (refl, omega arith, λ n. (λ h. omega arith, omega arith)) in
    All-replicate IsEager {a = (false, slow)} 1024 once

main_client-HasDelivered_example :
    HasDelivered pool table 5
      (settled as_client defaults)
      answer
      (main pool table vpp client_run server_run as_client)
main_client-HasDelivered_example =
    main_client-HasDelivered pool table vpp client_run server_run as_client answer
      (omega arith, (tt, tt)) refl refl refl (λ e. absurd (omega (arith, e)))
      (start ∷ [], attached, [], refl, refl, (refl, tt)) (tt, tt) refl eager
      (omega (arith, length-replicate {0} {A = Bool × Answer} 1024 (false, slow)))

main_server-HasServed_example :
    HasServed pool table 5
      (settled (no_return ∷ []) defaults)
      (main pool table vpp client_run server_run (no_return ∷ []))
main_server-HasServed_example =
    main_server-HasServed pool table vpp client_run server_run (no_return ∷ []) (tt, tt) refl refl
      refl (tt, ((omega arith, (round_law, (round_law, (round_law, tt)))), (tt, (tt, tt))))

-- The pool of UdpEcho/Data gives its indices in order.
used_after : (k : ℕ) (p : Slots) → length (get_sessions pool table k p).used ≡ length p.used + k
unfolding get_sessions
used_after zero p = omega arith
used_after (suc k) p = omega (
  arith,
  used_after k (pool.write (pool.get p).0 (pool.get p).1 dpdk_perf.UdpEcho.Session.zeroed),
  length-append {0} p.used (true ∷ []),
)

preallocate-free_example :
    (pool.elts (preallocate pool table 200000 pool.empty) ≡ 0)
    × ((i : ℕ) → pool.live (preallocate pool table 200000 pool.empty) i ≡ false)
preallocate-free_example =
    preallocate-free pool table 200000 (λ k h. used_after k pool.empty ∙ omega arith)

-- 6.0.1.1 and 6.0.256.1.
endpoint :
    unformat_uri (λ p. p) (some ((6, 0, 1, 1), 1234)) none
    ≡ some (record { ip = 0x01010006; port = 1234; is_ip4 = true })
unfolding unformat_uri
endpoint = refl

no_endpoint : unformat_uri (λ p. p) (some ((6, 0, 256, 1), 1234)) none ≡ none
unfolding unformat_uri
no_endpoint = refl
