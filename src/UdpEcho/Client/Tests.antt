-- ===== src/UdpEcho/Client/Tests.antt =====
-- A client of src/udp-echo/main.c that is refused once and then connected.
use dpdk_perf.Common.{ℕ, ◌≡◌, refl, false, some, List, [], ◌∷◌, arith, true}
use dpdk_perf.UdpEcho.Session.{ConnectedMsg, SessionEvent, on_connected, on_disconnected, unhandled}
use dpdk_perf.UdpEcho.Data.{pool, table, idle}
use dpdk_perf.Common.{Bool}
use dpdk_perf.Common.Int.{pos}
use dpdk_perf.UdpEcho.Session.{attached}
use dpdk_perf.UdpEcho.Control.Wait.{Reaches}
use dpdk_perf.UdpEcho.Send.{Transfer, Answer}
use dpdk_perf.UdpEcho.Client.{Turn, attach, connect, client_test}
use dpdk_perf.UdpEcho.Client.Connects.{first_connection}
use dpdk_perf.UdpEcho.Client.Chooses.{Chooses, client_test-Chooses}

abbrev answer : ℕ → ConnectedMsg
answer retval = record {
  retval = retval;
  server_rx_fifo = 100;
  server_tx_fifo = 200;
  ct_rx_fifo = 0;
  vpp_event_queue_address = 4096;
  lcl_ip = 1;
  is_ip4 = true;
  lcl_port = 1234;
}

abbrev turn : SessionEvent → Turn
turn e = record { event = e; time_up = false }

abbrev turns : List Turn
turns =
    turn (unhandled 9)
    ∷ turn (on_connected (answer 1))
    ∷ turn (on_disconnected (record { handle = 3; context = 0 }))
    ∷ turn (on_connected (answer 0))
    ∷ []

connects : first_connection turns ≡ some (some (answer 0))
connects = refl

at_once : Reaches attached (attached ∷ [])
at_once = ([], attached, [], refl, refl, tt)

-- One byte to send, on a FIFO with room that takes what it is offered.
abbrev one_byte : Transfer
one_byte = record { bytes_to_send = 1; bytes_sent = 0; wire = [] }

abbrev rounds : List (Bool × Answer)
rounds = (false, record { enq_space = 100; app_send = λ n. pos n }) ∷ []

client_test-Chooses_example :
    Chooses pool table
      (record idle { state = attached })
      (attach 5 64 ∷ connect 5 (117 ∷ []) ∷ [])
      5
      rounds
      one_byte
      (first_connection turns)
      (client_test pool table
        (some (7, 1234))
        5
        64
        (117 ∷ [])
        (attached ∷ [])
        turns
        rounds
        idle
        one_byte)
client_test-Chooses_example =
    client_test-Chooses pool table (some (7, 1234)) 5 64 (117 ∷ []) (attached ∷ []) turns rounds
      idle one_byte
      (record {
        empty = refl;
        no_handles = λ k. refl;
        not_failed = refl;
        no_cut_through = refl;
        has_room = λ e. absurd (omega (arith, e));
      })
      at_once (tt, (tt, (tt, (tt, tt))))
