-- ===== src/UdpEcho/Echo/Recorded.antt =====
-- What the server of src/udp-echo/main.c records of an echo, and what the counters of src/status.h make
-- of it.
use dpdk_perf.Common.{
  ℕ, ◌+◌, ◌*◌, ◌^◌, ◌<◌, ◌≡◌, refl, sym, ap, subst, ◌∙◌, Bool, none, some, List, [], ◌∷◌, ◌++◌,
  arith, length, All, Bool-cases, inl, inr, not, ◌&&◌, ◌||◌, min, ltb, ◌==◌, length-append,
  Option-cases,
}
use dpdk_perf.Common.Int.{ℤ, pos, is_negative, to_u32}
use dpdk_perf.UdpEcho.Echo.{
  reflect, got, Round, Echo, take_in, round, rounds, server_handle_fifo_event_rx,
}
use dpdk_perf.UdpEcho.Echo.Whole.{
  IsLawfulRound, IsEcho, round_quiet, round_echo, begin, echoed_state, round-IsEcho,
  handle_fifo_event_rx-IsEcho,
}
use dpdk_perf.UdpEcho.Echo.Receptions.{receptions_of_echo, echo-once}
use dpdk_perf.UdpEcho.Server.{nothing_yet}
use dpdk_perf.Status.{Status, Call, run}
use dpdk_perf.Status.Accounting.{total_bytes, total_pps, total_calls, Accounts, run-Accounts}

-- A reception that gives no error.
abbrev pub IsHeard : Round → Type 0
IsHeard r = (n : ℕ) → (bytes : List ℕ) × (r.recv n ≡ got bytes)

abbrev pub sum : List ℕ → ℕ
sum [] = 0
sum (n ∷ ns) = n + sum ns

sum-append : (xs ys : List ℕ) → sum (xs ++ ys) ≡ sum xs + sum ys
sum-append [] ys = omega arith
sum-append (x ∷ xs) ys = omega (arith, sum-append xs ys)

-- The numbers recorded add up to the bytes received.
abbrev IsRecorded : Echo → Type 0
IsRecorded s = sum s.recorded ≡ length s.received

module _ (have_return : Bool) (rx_buf_len total : ℕ) (small : total < 2 ^ 32) where
  take_in-IsRecorded :
      (bytes : List ℕ) (s s' : Echo)
      → s'.received ≡ (take_in bytes s).received
      → s'.recorded ≡ (take_in bytes s).recorded
      → IsEcho have_return total s'
      → IsRecorded s
      → IsRecorded s'
  unfolding take_in
  take_in-IsRecorded bytes s s' e e' v h =
      let n : length s'.received ≡ length s.received + length bytes =
        ap length e ∙ length-append s.received bytes in
      let word : to_u32 (pos (length bytes)) ≡ length bytes = omega (arith, n, v.conserved) in
      let all : sum s'.recorded ≡ sum s.recorded + sum (to_u32 (pos (length bytes)) ∷ []) =
        ap sum e' ∙ sum-append s.recorded (to_u32 (pos (length bytes)) ∷ []) in
      omega (arith, n, word, all, h)

  round-IsRecorded :
      (r : Round) (s s' : Echo) (n : ℤ)
      → IsHeard r
      → IsEcho have_return total s'
      → IsRecorded s
      → round have_return rx_buf_len r s ≡ some (n, s')
      → IsRecorded s'
  unfolding take_in
  round-IsRecorded r s s' n heard v h e =
      let (bytes, q) = heard (min rx_buf_len s.max_dequeue) in
      elim (Bool-cases (have_return && ltb 0 (length bytes))) [
        | inr quiet ↦
            let it = round_quiet have_return rx_buf_len total small bytes r s q quiet in
            let same : take_in bytes s ≡ s' = ground (arith, it, e) in
            take_in-IsRecorded bytes s s' (ap (λ (u : Echo). u.received) (sym same))
              (ap (λ (u : Echo). u.recorded) (sym same)) v h
        | inl echo ↦
            elim (Option-cases
              (reflect bytes r.tries (begin have_return rx_buf_len total small bytes s))) [
                | inl o ↦
                    let it =
                      round_echo have_return rx_buf_len total small bytes r s none q echo o in
                    absurd (ground (arith, it, e))
                | inr (d, o) ↦
                    let it =
                      round_echo have_return rx_buf_len total small bytes r s (some d) q echo o in
                    let same : echoed_state have_return rx_buf_len total small bytes r s d ≡ s' =
                      ground (arith, it, e) in
                    take_in-IsRecorded bytes s s' (ap (λ (u : Echo). u.received) (sym same))
                      (ap (λ (u : Echo). u.recorded) (sym same)) v h
              ]
      ]

  rounds-IsRecorded :
      (rs : List Round) (s s' : Echo)
      → All IsLawfulRound rs
      → All IsHeard rs
      → IsEcho have_return total s
      → IsRecorded s
      → rounds have_return rx_buf_len rs s ≡ some s'
      → IsRecorded s'
  unfolding rounds
  rounds-IsRecorded [] s s' law heard v h e = absurd (ground (arith, e))
  rounds-IsRecorded (r ∷ rs) s s' law heard v h e =
      elim (Option-cases (round have_return rx_buf_len r s)) [
        | inl o ↦ absurd (ground (arith, o, e))
        | inr ((n, t), o) ↦
            let w = round-IsEcho have_return rx_buf_len total small r s t n law.0 v o in
            let k = round-IsRecorded r s t n heard.0 w h o in
            elim (Bool-cases ((is_negative n || ltb 0 t.max_dequeue) && not r.stop)) [
              | inl again ↦
                  rounds-IsRecorded rs t s' law.1 heard.1 w k (ground (arith, o, again, e))
              | inr over ↦ let same : t ≡ s' = ground (arith, o, over, e) in subst IsRecorded same k
            ]
      ]

  echo-IsRecorded :
      (rs : List Round) (s : Echo)
      → All IsLawfulRound rs
      → All IsHeard rs
      → server_handle_fifo_event_rx have_return rx_buf_len rs (nothing_yet total) ≡ some s
      → sum s.recorded ≡ total
  unfolding server_handle_fifo_event_rx
  echo-IsRecorded rs s law heard e =
      let v : IsEcho have_return total (nothing_yet total) = record {
        conserved = omega arith;
        echoed = elim (Bool-cases have_return) [ inl q ↦ rw q refl | inr q ↦ rw q refl ];
      } in
      let (w, empty) =
        handle_fifo_event_rx-IsEcho have_return rx_buf_len total small rs (nothing_yet total) s law
          v e in
      let all : sum s.recorded ≡ length s.received = elim (Bool-cases (total == 0)) [
        | inl q ↦
            let same : nothing_yet total ≡ s = ground (arith, e, q) in subst IsRecorded same refl
        | inr q ↦ rounds-IsRecorded rs (nothing_yet total) s law heard v refl (ground (arith, e, q))
      ] in
      omega (arith, all, w.conserved, empty)

-- RECORD(n_read, 1) for each reception; `clock` gives the two times that each call reads.
unfoldable pub calls_of : (ℕ → ℕ × ℕ) → ℕ → List ℕ → List Call
calls_of clock i [] = []
calls_of clock i (n ∷ ns) =
    record { now = (clock i).0; later = (clock i).1; bytes = n; pps = 1 }
    ∷ calls_of clock (i + 1) ns

calls_of-totals :
    (clock : ℕ → ℕ × ℕ) (i : ℕ) (ns : List ℕ)
    → (total_bytes (calls_of clock i ns) ≡ sum ns)
      × (total_pps (calls_of clock i ns) ≡ length ns)
      × (total_calls (calls_of clock i ns) ≡ length ns)
unfolding calls_of
calls_of-totals clock i [] = (refl, refl, refl)
calls_of-totals clock i (n ∷ ns) = omega (arith, calls_of-totals clock (i + 1) ns)

-- When server_handle_fifo_event_rx has taken `total` bytes from a FIFO, fewer than 2 ^ 32, without
-- an error of the receptions, and no call gave or took more than it was asked for and nobody stopped
-- the server, then the counters of status.h, whatever the clock reads, account for exactly these bytes
-- beside what they accounted for before, and for one packet and one call for each time that it
-- received, also if that gave no bytes; the totals fit 64 bits.
pub echo-Accounts :
    (have_return : Bool) (rx_buf_len total feq : ℕ) (clock : ℕ → ℕ × ℕ) (rs : List Round) (e : Echo)
    (s : Status) (printed : List Status) (bytes pps calls : ℕ)
    → total < 2 ^ 32
    → All IsLawfulRound rs
    → All IsHeard rs
    → server_handle_fifo_event_rx have_return rx_buf_len rs (nothing_yet total) ≡ some e
    → let n = receptions_of_echo have_return rx_buf_len rs total in
      8 * (bytes + total) < 2 ^ 64
      → pps + n < 2 ^ 64
      → calls + n < 2 ^ 64
      → Accounts (s, printed) bytes pps calls
      → Accounts
          (run feq (calls_of clock 0 e.recorded) (s, printed))
          (bytes + total)
          (pps + n)
          (calls + n)
echo-Accounts have_return rx_buf_len total feq clock rs e s printed bytes pps calls small law heard
      h hb hp hc v =
    let all = echo-IsRecorded have_return rx_buf_len total small rs e law heard h in
    let once = echo-once have_return rx_buf_len rs total e h in
    let (b, p, c) = calls_of-totals clock 0 e.recorded in
    let it =
      run-Accounts feq (calls_of clock 0 e.recorded) s printed bytes pps calls
        (omega (arith, b, all)) (omega (arith, p, once)) (omega (arith, c, once)) v in
    omega (arith, it, all, b, p, c, once)
