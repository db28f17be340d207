-- ===== src/VclServer/Udp/Counted.antt =====
-- The UDP counters of src/vcl-test-server/main.c lose nothing between two prints.
use dpdk_perf.Common.{
  ℕ, ◌+◌, ◌*◌, ◌^◌, ◌<◌, ◌≡◌, refl, Bool, true, false, List, [], ◌∷◌, arith, All, inl, inr,
  Bool-cases, map,
}
use dpdk_perf.Common.Int.{pos}
use dpdk_perf.VclServer.Server.{Worker, TestLib}
use dpdk_perf.VclServer.Options.{udp}
use dpdk_perf.VclServer.Loop.{Setup, Answers, Event, Ends, next, done, fail, fault, on_event}
use dpdk_perf.VclServer.Worker.{dispatch, on_events}
use dpdk_perf.VclServer.Udp.{Status, Datagram, receive, udp_events}

abbrev pub sum : List ℕ → ℕ
sum [] = 0
sum (n ∷ ns) = n + sum ns

abbrev pub number : List ℕ → ℕ
number [] = 0
number (n ∷ ns) = 1 + number ns

module _ {Clock : Type 0} (header : ℕ) (second_since : Clock → Clock → Bool) where
  -- A readable event with a header and n bytes of data.
  abbrev pub HasData : ℕ → Datagram Clock × (Answers × Event) → Type 0
  HasData n (d, (a, e)) = (d.rx_bytes ≡ pos (header + n)) × (e.epollin ≡ true)

  abbrev pub HaveData : List ℕ → List (Datagram Clock × (Answers × Event)) → Type 0
  HaveData [] [] = Unit {0}
  HaveData (n ∷ ns) (x ∷ xs) = HasData n x × HaveData ns xs
  HaveData _ _ = ⊥

  abbrev pub printed_bits : List (Status Clock) → ℕ
  printed_bits [] = 0
  printed_bits (s ∷ ss) = s.speed + printed_bits ss

  abbrev pub printed_packets : List (Status Clock) → ℕ
  printed_packets [] = 0
  printed_packets (s ∷ ss) = s.pps + printed_packets ss

  -- What the prints and the counters account for.
  abbrev pub Accounts : Status Clock × List (Status Clock) → ℕ → ℕ → Type 0
  Accounts (s, printed) bytes packets =
      (printed_bits printed + 8 * s.total ≡ 8 * bytes)
      × (printed_packets printed + s.cur_pps ≡ packets)

  receive-Accounts :
      (d : Datagram Clock) (n : ℕ) (st : Status Clock × List (Status Clock)) (bytes packets : ℕ)
      → d.rx_bytes ≡ pos (header + n)
      → header + n < 2 ^ 31
      → 8 * (bytes + n) < 2 ^ 64
      → packets + 1 < 2 ^ 64
      → Accounts st bytes packets
      → Accounts (receive header second_since d st) (bytes + n) (packets + 1)
  unfolding receive
  receive-Accounts d n (s, printed) bytes packets e small hb hp v =
      elim (Bool-cases (second_since d.now s.last)) [
        | inl q ↦ rw (q, e) (omega arith)
        | inr q ↦ rw (q, e) (omega arith)
      ]

  abbrev Agree : TestLib → Setup → List (Datagram Clock × (Answers × Event)) → Type 0
  Agree lib setup es =
      (wrk : Worker) (st : Status Clock × List (Status Clock))
      → (udp_events header second_since lib setup es wrk st).0
        ≡ on_events lib setup udp (map (λ (x : Datagram Clock × (Answers × Event)). x.1) es) wrk

  event-Agree :
      (lib : TestLib) (setup : Setup) (es : List (Datagram Clock × (Answers × Event)))
      (d : Datagram Clock) (a : Answers) (place : ℕ) (hup epollin : Bool)
      → Agree lib setup es
      → Agree lib setup ((d, (a, record { place = place; hup = hup; epollin = epollin })) ∷ es)
  unfolding udp_events on_events dispatch
  event-Agree lib setup es d a place hup true ih wrk st = ih wrk (receive header second_since d st)
  event-Agree lib setup es d a place hup false ih wrk st = go (on_event lib setup a e wrk) refl
    where
      e : Event
      e = record { place = place; hup = hup; epollin = false }

      go :
          (o : Ends)
          → on_event lib setup a e wrk ≡ o
          → (udp_events header second_since lib setup ((d, (a, e)) ∷ es) wrk st).0
            ≡ on_events lib setup udp
                (map (λ (x : Datagram Clock × (Answers × Event)). x.1) ((d, (a, e)) ∷ es))
                wrk
      go (next w) p = rw (on_events, p) (ih w st)
      go (done w) p = rw (on_events, p) refl
      go (fail w) p = rw (on_events, p) refl
      go fault p = rw (on_events, p) refl

  -- What the worker does is what on_events says for UDP.
  udp_events-on_events :
      (lib : TestLib) (setup : Setup) (es : List (Datagram Clock × (Answers × Event)))
      → Agree lib setup es
  unfolding udp_events on_events
  udp_events-on_events lib setup [] wrk st = refl
  udp_events-on_events lib setup ((d, (a, e)) ∷ es) wrk st =
      event-Agree lib setup es d a e.place e.hup e.epollin (udp_events-on_events lib setup es) wrk
        st

  -- Over any events of a wait that each bring a datagram, a header and data of a length that fits an
  -- int, while the totals fit 64 bits: the worker is left as it is, and the bits and packets printed
  -- so far and those still pending add up to the data and the number of all datagrams, whatever the
  -- clock reads.
  pub udp_events-Accounts :
      (lib : TestLib) (setup : Setup) (ns : List ℕ) (es : List (Datagram Clock × (Answers × Event)))
      (wrk : Worker) (st : Status Clock × List (Status Clock)) (bytes packets : ℕ)
      → HaveData ns es
      → All (λ n. header + n < 2 ^ 31) ns
      → 8 * (bytes + sum ns) < 2 ^ 64
      → packets + number ns < 2 ^ 64
      → Accounts st bytes packets
      → let r = udp_events header second_since lib setup es wrk st in
        (r.0 ≡ next wrk) × Accounts r.1 (bytes + sum ns) (packets + number ns)
  unfolding udp_events
  udp_events-Accounts lib setup [] [] wrk st bytes packets d small hb hp v = (refl, omega arith)
  udp_events-Accounts lib setup [] (x ∷ es) wrk st bytes packets d small hb hp v = absurd d
  udp_events-Accounts lib setup (n ∷ ns) [] wrk st bytes packets d small hb hp v = absurd d
  udp_events-Accounts lib setup (n ∷ ns) ((d, (a, e)) ∷ es) wrk st bytes packets ((rx, is), ds)
        small hb hp v =
      let one = receive-Accounts d n st bytes packets rx small.0 (omega arith) (omega arith) v in
      let ih =
        udp_events-Accounts lib setup ns es wrk (receive header second_since d st) (bytes + n)
          (packets + 1) ds small.1 (omega arith) (omega arith) one in
      rw is (ih.0, omega (arith, ih.1))
