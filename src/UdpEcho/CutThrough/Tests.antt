-- ===== src/UdpEcho/CutThrough/Tests.antt =====
-- A run of the cut-through thread of src/udp-echo/main.c.
use dpdk_perf.Common.{◌/◌, ◌-◌, ◌≡◌, refl, true, some, [], ◌∷◌, arith, inl, inr, false, List, ◌++◌}
use dpdk_perf.Common.Int.{pos}
use dpdk_perf.UdpEcho.Echo.{error, got}
use dpdk_perf.UdpEcho.CutThrough.{Turn, CutThrough, cut_through_thread}
use dpdk_perf.UdpEcho.CutThrough.Total.{IsEagerTurn, incoming, cut_through_thread_total}
use dpdk_perf.UdpEcho.CutThrough.Mirror.{IsMirror}

-- The first read fails; three bytes come; one is sent, then the other two.
abbrev one_turn : Turn
one_turn = record {
  reads = error 0 ∷ got (5 ∷ 6 ∷ 7 ∷ []) ∷ [];
  enqueue_nowait = (λ n. pos (n / 2)) ∷ (λ n. pos n) ∷ [];
  stop = true;
}

abbrev nothing : CutThrough
nothing = record { server_bytes_received = 0; server_bytes_sent = 0; received = []; sent = [] }

abbrev mirrored : CutThrough
mirrored = record {
  server_bytes_received = 3;
  server_bytes_sent = 3;
  received = 5 ∷ 6 ∷ 7 ∷ [];
  sent = 5 ∷ 6 ∷ 7 ∷ [];
}

one_run : cut_through_thread true (one_turn ∷ []) nothing ≡ some mirrored
unfolding cut_through_thread
one_run = refl

-- The FIFO takes one byte, then all that are left.
abbrev eager_turn : Turn
eager_turn = record {
  reads = error 0 ∷ got (5 ∷ 6 ∷ 7 ∷ []) ∷ [];
  enqueue_nowait = (λ n. pos (n - (n - 1))) ∷ (λ n. pos n) ∷ (λ n. pos n) ∷ [];
  stop = true;
}

eager_turn_lem : IsEagerTurn 3 eager_turn
eager_turn_lem = record {
  coming = inl (omega arith);
  fits = (tt, (omega arith, tt));
  eager = (
    (λ n. ((λ p. omega (arith, p)), omega arith)),
    ((λ n. ((λ p. p), omega arith)), ((λ n. ((λ p. p), omega arith)), tt)),
  );
  enough = omega arith;
}

-- A turn that does not end the thread, the turn that does, and one that is never begun.
abbrev eager_turns : List Turn
eager_turns = record eager_turn { stop = false } ∷ eager_turn ∷ eager_turn ∷ []

cut_through_thread_total_example :
    (s : CutThrough) × (cut_through_thread true eager_turns nothing ≡ some s)
    × (s.received ≡ [] ++ incoming eager_turns)
    × IsMirror true s
cut_through_thread_total_example =
    cut_through_thread_total true 3 eager_turns nothing
      (
        record {
          coming = eager_turn_lem.coming;
          fits = eager_turn_lem.fits;
          eager = eager_turn_lem.eager;
          enough = eager_turn_lem.enough;
        },
        (eager_turn_lem, (eager_turn_lem, tt)),
      )
      (inr (inl refl)) (record { counted_in = refl; counted_out = refl; echoed = refl })

-- Three bytes come in each of the two turns.
six_bytes : incoming eager_turns ≡ 5 ∷ 6 ∷ 7 ∷ 5 ∷ 6 ∷ 7 ∷ []
six_bytes = refl
