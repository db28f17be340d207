-- ===== src/UdpEcho/Echo/Total.antt =====
-- The loops of server_handle_fifo_event_rx in src/udp-echo/main.c come to their end.
use dpdk_perf.Common.{
  ℕ, ◌^◌, ◌≤◌, ◌<◌, ◌≡◌, refl, ap, subst, Bool, false, some, List, [], ◌∷◌, arith, length, All,
  Bool-cases, inl, inr, not, ◌&&◌, ◌||◌, min, if◌then◌else◌, ltb, ◌==◌,
}
use dpdk_perf.Common.Int.{ℤ, pos, is_negative}
use dpdk_perf.UdpEcho.Echo.{got, Round, Echo, take_in, round, rounds, server_handle_fifo_event_rx}
use dpdk_perf.UdpEcho.Echo.Reflect.{reflect-IsWhole, IsEager, reflect_total}
use dpdk_perf.UdpEcho.Echo.Whole.{
  Fits, IsLawfulRound, IsEcho, round_quiet, round_echo, round-IsEcho, begin, echoed_state,
  begin-IsReflected, handle_fifo_event_rx-IsEcho,
}

-- A call to receive gives at least a byte if it is asked for one, and there are as many eager tries
-- to send as the buffer has bytes.
abbrev pub IsEagerRound : ℕ → Round → Type 0
IsEagerRound rx_buf_len r =
    ((n : ℕ) → 0 < n → (bytes : List ℕ) × (r.recv n ≡ got bytes) × (0 < length bytes))
    × All IsEager r.tries
    × (rx_buf_len ≤ length r.tries)

module _ (have_return : Bool) (rx_buf_len total : ℕ) (small : total < 2 ^ 32)
    (room : 0 < rx_buf_len) where
  take_in_less :
      (bytes : List ℕ) (s : Echo)
      → IsEcho have_return total s
      → 0 < length bytes
      → length bytes ≤ min rx_buf_len s.max_dequeue
      → (take_in bytes s).max_dequeue < s.max_dequeue
  unfolding take_in
  take_in_less bytes s v p fits = ground (arith, v.conserved)

  round_total :
      (r : Round) (s : Echo)
      → IsLawfulRound r
      → IsEagerRound rx_buf_len r
      → IsEcho have_return total s
      → 0 < s.max_dequeue
      → (n : ℤ) × (s' : Echo) × (round have_return rx_buf_len r s ≡ some (n, s'))
        × (is_negative n ≡ false)
        × (s'.max_dequeue < s.max_dequeue)
  round_total r s law eager v p =
      let (bytes, q, more) = eager.0 (min rx_buf_len s.max_dequeue) (omega arith) in
      let fits : length bytes ≤ min rx_buf_len s.max_dequeue =
        subst (Fits _) q (law.0 (min rx_buf_len s.max_dequeue)) in
      let less = take_in_less bytes s v more fits in
      elim (Bool-cases (have_return && ltb 0 (length bytes))) [
        | inr quiet ↦ (
          pos (length bytes),
          take_in bytes s,
          round_quiet have_return rx_buf_len total small bytes r s q quiet,
          refl,
          less,
        )
        | inl echo ↦
            let (d, e) =
              reflect_total s.sent bytes (length bytes) r.tries
                (begin have_return rx_buf_len total small bytes s) eager.1 more
                (omega (arith, eager.2))
                (begin-IsReflected have_return rx_buf_len total small bytes s) in
            let w =
              reflect-IsWhole s.sent bytes (length bytes) r.tries _ d law.1 more
                (begin-IsReflected have_return rx_buf_len total small bytes s) e in
            (
              d.n_read,
              echoed_state have_return rx_buf_len total small bytes r s d,
              round_echo have_return rx_buf_len total small bytes r s (some d) q echo e,
              ap is_negative w.0,
              less,
            )
      ]

  rounds_total :
      (rs : List Round) (s : Echo)
      → All IsLawfulRound rs
      → All (IsEagerRound rx_buf_len) rs
      → IsEcho have_return total s
      → 0 < s.max_dequeue
      → s.max_dequeue ≤ length rs
      → (s' : Echo) × (rounds have_return rx_buf_len rs s ≡ some s')
  unfolding rounds
  rounds_total [] s law eager v p enough = absurd (omega arith)
  rounds_total (r ∷ rs) s law eager v p enough =
      let (n, t, e, up, less) = round_total r s law.0 eager.0 v p in
      elim (Bool-cases ((is_negative n || ltb 0 t.max_dequeue) && not r.stop)) [
        | inl again ↦
            let w = round-IsEcho have_return rx_buf_len total small r s t n law.0 v e in
            let rest =
              rounds_total rs t law.1 eager.1 w (ground (arith, again, up)) (omega arith) in
            (rest.0, ground (arith, e, again, rest.1))
        | inr over ↦ (t, ground (arith, e, over))
      ]

  -- If the FIFO gives bytes whenever it is asked for some and app_send takes some whenever it is
  -- offered any, server_handle_fifo_event_rx returns within as many rounds as there are bytes in the
  -- FIFO, at most 2 ^ 32 - 1 in all, and each round within as many tries as rx_buf has bytes, at
  -- least one; it leaves the FIFO empty, none of the bytes lost, and with have_return all sent back
  -- in order.
  pub handle_fifo_event_rx_total :
      (rs : List Round) (s : Echo)
      → All IsLawfulRound rs
      → All (IsEagerRound rx_buf_len) rs
      → IsEcho have_return total s
      → s.max_dequeue ≤ length rs
      → (s' : Echo) × (server_handle_fifo_event_rx have_return rx_buf_len rs s ≡ some s')
        × (s'.max_dequeue ≡ 0)
        × (length s'.received ≡ total)
        × (s'.sent ≡ (if have_return then s'.received else []))
  unfolding server_handle_fifo_event_rx
  handle_fifo_event_rx_total rs s law eager v enough =
      let (s', e) : (s' : Echo) × (server_handle_fifo_event_rx have_return rx_buf_len rs s
            ≡ some s') =
        elim (Bool-cases (s.max_dequeue == 0)) [
          | inl e ↦ (s, ground (arith, e))
          | inr e ↦
              let r = rounds_total rs s law eager v (ground (arith, e)) enough in
              (r.0, ground (arith, e, r.1))
        ] in
      let w = handle_fifo_event_rx-IsEcho have_return rx_buf_len total small rs s s' law v e in
      (s', e, w.1, omega (arith, w.1, w.0.conserved), w.0.echoed)
