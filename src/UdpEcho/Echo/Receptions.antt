-- ===== src/UdpEcho/Echo/Receptions.antt =====
-- How often the server of src/udp-echo/main.c receives in an echo, and that it records each time.
use dpdk_perf.Common.{
  ℕ, ◌+◌, ◌≡◌, refl, subst, Bool, if◌then◌else◌, none, some, List, [], ◌∷◌, ◌++◌, arith, length,
  Bool-cases, inl, inr, not, ◌&&◌, ◌||◌, min, ltb, ◌==◌, length-append, Option-cases,
}
use dpdk_perf.Common.Int.{ℤ, pos, negsuc, is_negative, to_u32}
use dpdk_perf.UdpEcho.Echo.{
  Reflection, Received, error, reflect, got, Round, Echo, take_in, round, rounds,
  server_handle_fifo_event_rx,
}
use dpdk_perf.UdpEcho.Server.{nothing_yet}

-- How often server_handle_fifo_event_rx receives: once in each round that it runs.
abbrev pub receptions : Bool → ℕ → List Round → Echo → ℕ
receptions have_return rx_buf_len [] s = 0
receptions have_return rx_buf_len (r ∷ rs) s = elim (round have_return rx_buf_len r s) [
  | none ↦ 1
  | some (n_read, s') ↦
      let rest = receptions have_return rx_buf_len rs s' in
      if (is_negative n_read || ltb 0 s'.max_dequeue) && not r.stop then 1 + rest else 1
]

abbrev pub receptions_of_echo : Bool → ℕ → List Round → ℕ → ℕ
receptions_of_echo have_return rx_buf_len rs total =
    if total == 0 then 0 else receptions have_return rx_buf_len rs (nothing_yet total)

module _ (have_return : Bool) (rx_buf_len : ℕ) where
  -- A round records once, whatever it receives.
  round-once :
      (r : Round) (s s' : Echo) (n : ℤ)
      → round have_return rx_buf_len r s ≡ some (n, s')
      → length s'.recorded ≡ length s.recorded + 1
  unfolding round take_in
  round-once r s s' n e = go (r.recv (min rx_buf_len s.max_dequeue)) refl
    where
      same :
          (u : Echo) (m : ℤ)
          → length u.recorded ≡ length s.recorded + 1
          → round have_return rx_buf_len r s ≡ some (m, u)
          → length s'.recorded ≡ length s.recorded + 1
      same u m l f =
          let it : u ≡ s' = ground (arith, e, f) in
          subst (λ (w : Echo). length w.recorded ≡ length s.recorded + 1) it l

      go :
          (x : Received)
          → r.recv (min rx_buf_len s.max_dequeue) ≡ x
          → length s'.recorded ≡ length s.recorded + 1
      go (error k) q =
          same (record s { recorded = s.recorded ++ (to_u32 (negsuc k) ∷ []) }) (negsuc k)
            (length-append s.recorded (to_u32 (negsuc k) ∷ [])) (rw (round, q) refl)
      go (got bytes) q = elim (Bool-cases (have_return && ltb 0 (length bytes))) [
        | inr quiet ↦
            same (take_in bytes s) (pos (length bytes))
              (length-append s.recorded (to_u32 (pos (length bytes)) ∷ []))
              (rw (round, q, quiet) refl)
        | inl echo ↦
            let begin : Reflection = record {
              n_read = pos (length bytes);
              offset = 0;
              sent = s.sent;
            } in
            elim (Option-cases (reflect bytes r.tries begin)) [
              | inl o ↦ absurd (ground (arith, q, echo, o, e))
              | inr (d, o) ↦
                  let u : Echo = record (take_in bytes s) {
                    sent = d.sent;
                    tx_events = if r.event_unset then s.tx_events + 1 else s.tx_events;
                  } in
                  same u d.n_read (length-append s.recorded (to_u32 (pos (length bytes)) ∷ []))
                    (rw (round, q, echo, o) refl)
            ]
      ]

  rounds-once :
      (rs : List Round) (s s' : Echo)
      → rounds have_return rx_buf_len rs s ≡ some s'
      → length s'.recorded ≡ length s.recorded + receptions have_return rx_buf_len rs s
  unfolding rounds
  rounds-once [] s s' e = absurd (ground (arith, e))
  rounds-once (r ∷ rs) s s' e = elim (Option-cases (round have_return rx_buf_len r s)) [
    | inl o ↦ absurd (ground (arith, o, e))
    | inr ((n, t), o) ↦
        let one = round-once r s t n o in
        elim (Bool-cases ((is_negative n || ltb 0 t.max_dequeue) && not r.stop)) [
          | inl again ↦
              let more = rounds-once rs t s' (ground (arith, o, again, e)) in
              rw (receptions, o, again) (omega (arith, one, more))
          | inr over ↦
              let same : t ≡ s' = ground (arith, o, over, e) in
              rw (receptions, o, over)
                (subst (λ (w : Echo). length w.recorded ≡ length s.recorded + 1) same one)
        ]
  ]

  pub echo-once :
      (rs : List Round) (total : ℕ) (s : Echo)
      → server_handle_fifo_event_rx have_return rx_buf_len rs (nothing_yet total) ≡ some s
      → length s.recorded ≡ receptions_of_echo have_return rx_buf_len rs total
  unfolding server_handle_fifo_event_rx
  echo-once rs total s e = elim (Bool-cases (total == 0)) [
    | inl q ↦
        let same : nothing_yet total ≡ s = ground (arith, e, q) in
        rw q (subst (λ (w : Echo). length w.recorded ≡ 0) same refl)
    | inr q ↦ rw q (omega (arith, rounds-once rs (nothing_yet total) s (ground (arith, e, q))))
  ]
