-- ===== src/UdpEcho/Tests.antt =====
-- Runs of the client and the server of src/udp-echo/main.c.
use dpdk_perf.Common.{
  ◌+◌, ◌*◌, ℕ, zero, suc, ◌<◌, ◌≡◌, refl, Bool, true, false, none, some, List, [], ◌∷◌, All, arith,
  ◌==◌, if◌then◌else◌, length, replicate, All-replicate,
}
use dpdk_perf.Common.Int.{pos}
use dpdk_perf.UdpEcho.Data.{pool, table, idle}
use dpdk_perf.UdpEcho.Session.{
  AcceptedMsg, SessionEvent, on_accepted, on_disconnected, handle_all, disconnected_reply,
  accepted_reply,
}
use dpdk_perf.UdpEcho.Session.Tracking.{IsTracked, handle_all-IsTracked}
use dpdk_perf.UdpEcho.Session.Lifecycle.{ended, accepted-disconnected, disconnected_reply_lost}
use dpdk_perf.UdpEcho.Send.{Transfer, Answer, send_loop}
use dpdk_perf.UdpEcho.Send.Ramp.{ramp}
use dpdk_perf.UdpEcho.Send.Stream.{IsLawful, IsEager, IsStream, send_loop-IsStream, send_loop_total}
use dpdk_perf.UdpEcho.Echo.{got, Echo, server_handle_fifo_event_rx}
use dpdk_perf.UdpEcho.Echo.Whole.{IsEcho, handle_fifo_event_rx-IsEcho}
use dpdk_perf.UdpEcho.Echo.{round}
use dpdk_perf.UdpEcho.Echo.Receptions.{receptions_of_echo}
use dpdk_perf.UdpEcho.Echo.Recorded.{IsHeard, calls_of, echo-Accounts}
use dpdk_perf.Status.{Status, run}
use dpdk_perf.Status.Accounting.{Accounts}
use dpdk_perf.UdpEcho.Echo.Total.{IsEagerRound, handle_fifo_event_rx_total}
use dpdk_perf.UdpEcho.Echo.Bytes.{one_byte, one_try, one_round, three_rounds, polite, round_law}
use dpdk_perf.UdpEcho.Echo.Reflect.{IsEager as IsEagerTry}

abbrev hello : AcceptedMsg
hello = record {
  handle = 77;
  context = 5;
  vpp_event_queue_address = 4096;
  server_rx_fifo = 100;
  server_tx_fifo = 200;
  ip = 1;
  is_ip4 = true;
  port = 1234;
}

abbrev traffic : List SessionEvent
traffic =
    on_accepted hello
    ∷ on_accepted (record hello { handle = 78 })
    ∷ on_disconnected (record { handle = 77; context = 6 })
    ∷ []

idle-IsTracked : IsTracked pool table idle
idle-IsTracked = record {
  leads = λ k i h. absurd (ground (arith, h));
  apart = λ j k i h _. absurd (ground (arith, h));
}

handle_all-IsTracked_example : IsTracked pool table (handle_all pool table none traffic idle)
handle_all-IsTracked_example = handle_all-IsTracked pool table none traffic idle idle-IsTracked

disconnected_reply_lost_example :
    (ended pool table hello idle 6).sent
    ≡ disconnected_reply 0 77 6 0 ∷ accepted_reply 4096 77 5 0 ∷ []
disconnected_reply_lost_example = disconnected_reply_lost pool table hello idle 6 (λ p i. refl)

accepted-disconnected_example :
    ((j : ℕ)
      → table.get (ended pool table hello idle 6).session_index_by_vpp_handles j
        ≡ (if 77 == j then none else table.get idle.session_index_by_vpp_handles j))
    × ((i : ℕ) → pool.live (ended pool table hello idle 6).sessions i ≡ pool.live idle.sessions i)
    × (pool.elts (ended pool table hello idle 6).sessions ≡ pool.elts idle.sessions)
accepted-disconnected_example = accepted-disconnected pool table hello idle 6

-- A FIFO with room for ten bytes, which takes what it is offered.
abbrev roomy : Answer
roomy = record { enq_space = 10; app_send = λ n. pos n }

abbrev thirteen : Transfer
thirteen = record { bytes_to_send = 13; bytes_sent = 0; wire = [] }

abbrev rounds : List (Bool × Answer)
rounds = replicate 13 (false, roomy)

lawful : All (λ r. IsLawful r.1) rounds
lawful =
    let once : IsLawful roomy = λ n. omega arith in
    All-replicate (λ (r : Bool × Answer). IsLawful r.1) {a = (false, roomy)} 13 once

eager : All IsEager rounds
eager =
    let once : IsEager (false, roomy) = (refl, omega arith, λ n. (λ h. h, omega arith)) in
    All-replicate IsEager {a = (false, roomy)} 13 once

nothing_yet : [] ≡ ramp 0 0
unfolding ramp
nothing_yet = refl

-- The state in which this run ends.
ran : (t' : Transfer) × (send_loop rounds thirteen ≡ some t')
ran =
    let r =
      send_loop_total 13 rounds thirteen (omega arith) eager
        (record { conserved = refl; pattern = nothing_yet }) (omega arith) in
    (r.0, r.1)

send_loop-IsStream_example : IsStream 13 ran.0
send_loop-IsStream_example =
    send_loop-IsStream 13 rounds thirteen ran.0 (omega arith) lawful
      (record { conserved = refl; pattern = nothing_yet }) ran.1

abbrev three : Echo
three = record { max_dequeue = 3; received = []; sent = []; recorded = []; tx_events = 0 }

one_byte_more : (n : ℕ) → 0 < n → (bytes : List ℕ) × (one_byte n ≡ got bytes) × (0 < length bytes)
one_byte_more zero h = absurd (omega arith)
one_byte_more (suc n) h = (7 ∷ [], refl, omega arith)

round_eager : IsEagerRound 2 one_round
round_eager =
    (one_byte_more, All-replicate IsEagerTry {a = one_try} 2 (polite, λ n h. h), omega arith)

handle_fifo_event_rx_total_example :
    (s' : Echo) × (server_handle_fifo_event_rx true 2 three_rounds three ≡ some s')
    × (s'.max_dequeue ≡ 0)
    × (length s'.received ≡ 3)
    × (s'.sent ≡ s'.received)
handle_fifo_event_rx_total_example =
    handle_fifo_event_rx_total true 2 3 (omega arith) (omega arith) three_rounds three
      (round_law, (round_law, (round_law, tt))) (round_eager, (round_eager, (round_eager, tt)))
      (record { conserved = refl; echoed = refl }) (omega arith)

abbrev echoed : Echo
echoed = record {
  max_dequeue = 0;
  received = 7 ∷ 7 ∷ 7 ∷ [];
  sent = 7 ∷ 7 ∷ 7 ∷ [];
  recorded = 1 ∷ 1 ∷ 1 ∷ [];
  tx_events = 3;
}

three_echoed : server_handle_fifo_event_rx true 2 three_rounds three ≡ some echoed
unfolding server_handle_fifo_event_rx
three_echoed = refl

handle_fifo_event_rx-IsEcho_example : IsEcho true 3 echoed × (echoed.max_dequeue ≡ 0)
handle_fifo_event_rx-IsEcho_example =
    handle_fifo_event_rx-IsEcho true 2 3 (omega arith) three_rounds three echoed
      (round_law, (round_law, (round_law, tt))) (record { conserved = refl; echoed = refl })
      three_echoed

round-IsHeard : IsHeard one_round
round-IsHeard zero = ([], refl)
round-IsHeard (suc n) = (7 ∷ [], refl)

abbrev counters : Status
counters = record {
  call_rate = 0;
  call_count = 0;
  pps_rate = 0;
  pps_count = 0;
  bytes_rate = 0;
  bytes_count = 0;
  last = 0;
}

-- A clock that ticks twice for each call; two calls are a second.
abbrev clock : ℕ → ℕ × ℕ
clock i = (2 * i, 2 * i + 1)

three_times : receptions_of_echo true 2 three_rounds 3 ≡ 3
unfolding round
three_times = refl

echo-Accounts_example :
    let n = receptions_of_echo true 2 three_rounds 3 in
    Accounts (run 4 (calls_of clock 0 echoed.recorded) (counters, [])) (0 + 3) (0 + n) (0 + n)
echo-Accounts_example =
    echo-Accounts true 2 3 4 clock three_rounds echoed counters [] 0 0 0 (omega arith)
      (round_law, (round_law, (round_law, tt)))
      (round-IsHeard, (round-IsHeard, (round-IsHeard, tt))) three_echoed (omega arith)
      (omega (arith, three_times)) (omega (arith, three_times)) (refl, refl, refl)
