-- ===== src/VclServer/Udp/Tests.antt =====
-- Two datagrams that come to the UDP server of src/vcl-test-server/main.c, the second one a second
-- after the first.
use dpdk_perf.Common.{ℕ, ◌≡◌, refl, Bool, true, false, List, [], ◌∷◌, arith, leb, ◌-◌}
use dpdk_perf.Common.Int.{pos}
use dpdk_perf.VclServer.Loop.{Answers, Event, next}
use dpdk_perf.VclServer.Worker.Data.{lib, setup, answers, waiting}
use dpdk_perf.VclServer.Udp.{Status, Datagram, udp_events}
use dpdk_perf.VclServer.Udp.Counted.{Accounts, udp_events-Accounts}

abbrev second : ℕ → ℕ → Bool
second now last = leb 1000 (now - last)

abbrev readable : Event
readable = record { place = 7; hup = false; epollin = true }

abbrev datagrams : List (Datagram ℕ × (Answers × Event))
datagrams =
    (record { rx_bytes = pos 50; now = 10; later = 11 }, (answers, readable))
    ∷ (record { rx_bytes = pos 140; now = 1200; later = 1201 }, (answers, readable))
    ∷ []

abbrev none_yet : Status ℕ × List (Status ℕ)
none_yet = (record { last = 0; speed = 0; total = 0; pps = 0; cur_pps = 0 }, [])

udp_events-Accounts_example :
    let r = udp_events 40 second lib setup datagrams waiting none_yet in
    (r.0 ≡ next waiting) × Accounts 40 second r.1 110 2
udp_events-Accounts_example =
    udp_events-Accounts 40 second lib setup (10 ∷ 100 ∷ []) datagrams waiting none_yet 0 0
      ((refl, refl), ((refl, refl), tt)) (omega arith, (omega arith, tt)) (omega arith)
      (omega arith) (refl, refl)
