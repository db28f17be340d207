-- ===== src/UdpEcho/Echo/Whole.antt =====
-- What server_handle_fifo_event_rx of src/udp-echo/main.c has echoed when it returns.
use mathlib.Core.List.{append-nil}
use dpdk_perf.Common.{
  ℕ, ◌+◌, ◌^◌, ◌≤◌, ◌<◌, ◌≡◌, refl, sym, ap, subst, ◌∙◌, Bool, true, false, Option, none, some,
  List, [], ◌∷◌, ◌++◌, arith, length, All, Bool-cases, inl, inr, not, ◌&&◌, ◌||◌, min,
  if◌then◌else◌, ltb, ◌==◌, length-append, Option-cases,
}
use dpdk_perf.Common.Int.{ℤ, pos, negsuc, is_negative, to_u32}
use dpdk_perf.UdpEcho.Echo.{
  Reflection, reflect, Received, error, got, Round, Echo, take_in, round, rounds,
  server_handle_fifo_event_rx,
}
use dpdk_perf.UdpEcho.Echo.Reflect.{IsLawful, IsReflected, reflect-IsWhole}

-- A call to receive gives no more than it is asked for.
abbrev pub Fits : ℕ → Received → Type 0
Fits n (error e) = Unit {0}
Fits n (got bytes) = length bytes ≤ n

abbrev pub IsLawfulRound : Round → Type 0
IsLawfulRound r = ((n : ℕ) → Fits n (r.recv n)) × All IsLawful r.tries × (r.stop ≡ false)

-- Of `total` bytes those not received are still in the FIFO; with have_return those received were
-- sent.
pub record IsEcho (have_return : Bool) (total : ℕ) (s : Echo) : Type 0 where
  pub conserved : length s.received + s.max_dequeue ≡ total
  pub echoed : s.sent ≡ (if have_return then s.received else [])

module _ (have_return : Bool) (rx_buf_len total : ℕ) (small : total < 2 ^ 32) where
  pub taken :
      (bytes : List ℕ) (s : Echo)
      → IsEcho have_return total s
      → length bytes ≤ min rx_buf_len s.max_dequeue
      → length (s.received ++ bytes) + (take_in bytes s).max_dequeue ≡ total
  unfolding take_in
  taken bytes s v fits = ground (arith, v.conserved, length-append s.received bytes)

  -- What a round gives, by what it receives.
  round_error :
      (e : ℕ) (r : Round) (s : Echo)
      → r.recv (min rx_buf_len s.max_dequeue) ≡ error e
      → round have_return rx_buf_len r s
        ≡ some (negsuc e, record s { recorded = s.recorded ++ (to_u32 (negsuc e) ∷ []) })
  unfolding round
  round_error e r s q = rw (round, q)

  pub round_quiet :
      (bytes : List ℕ) (r : Round) (s : Echo)
      → r.recv (min rx_buf_len s.max_dequeue) ≡ got bytes
      → have_return && ltb 0 (length bytes) ≡ false
      → round have_return rx_buf_len r s ≡ some (pos (length bytes), take_in bytes s)
  unfolding round
  round_quiet bytes r s q quiet = rw (round, q, quiet)

  abbrev pub begin : List ℕ → Echo → Reflection
  begin bytes s = record { n_read = pos (length bytes); offset = 0; sent = s.sent }

  abbrev pub echoed_state : List ℕ → Round → Echo → Reflection → Echo
  echoed_state bytes r s q = record (take_in bytes s) {
    sent = q.sent;
    tx_events = if r.event_unset then s.tx_events + 1 else s.tx_events;
  }

  abbrev pub outcome : List ℕ → Round → Echo → Option Reflection → Option (ℤ × Echo)
  outcome bytes r s o = elim o [ none ↦ none | some q ↦ some (q.n_read, echoed_state bytes r s q) ]

  pub round_echo :
      (bytes : List ℕ) (r : Round) (s : Echo) (o : Option Reflection)
      → r.recv (min rx_buf_len s.max_dequeue) ≡ got bytes
      → have_return && ltb 0 (length bytes) ≡ true
      → reflect bytes r.tries (begin bytes s) ≡ o
      → round have_return rx_buf_len r s ≡ outcome bytes r s o
  unfolding round take_in
  round_echo bytes r s o q echo e = rw (round, q, echo) (ap (outcome bytes r s) e)

  quiet_nil :
      (bytes before : List ℕ) (hr : Bool)
      → hr && ltb 0 (length bytes) ≡ false
      → (if hr then before else []) ≡ (if hr then before ++ bytes else [])
  quiet_nil bytes before false h = refl
  quiet_nil [] before true h = sym (append-nil before)
  quiet_nil (b ∷ bytes) before true h = absurd (ground (arith, h))

  quiet-IsEcho :
      (bytes : List ℕ) (s : Echo)
      → IsEcho have_return total s
      → length bytes ≤ min rx_buf_len s.max_dequeue
      → have_return && ltb 0 (length bytes) ≡ false
      → IsEcho have_return total (take_in bytes s)
  unfolding take_in
  quiet-IsEcho bytes s v fits quiet = record {
    conserved = taken bytes s v fits;
    echoed = v.echoed ∙ quiet_nil bytes s.received have_return quiet;
  }

  echo-IsEcho :
      (bytes : List ℕ) (r : Round) (s : Echo) (q : Reflection)
      → IsEcho have_return total s
      → length bytes ≤ min rx_buf_len s.max_dequeue
      → have_return ≡ true
      → q.sent ≡ s.sent ++ bytes
      → IsEcho have_return total (echoed_state bytes r s q)
  unfolding take_in
  echo-IsEcho bytes r s q v fits echo e = record {
    conserved = taken bytes s v fits;
    echoed = ground (arith, e, v.echoed, echo);
  }

  pub begin-IsReflected :
      (bytes : List ℕ) (s : Echo) → IsReflected s.sent bytes (length bytes) (begin bytes s)
  begin-IsReflected bytes s = record {
    counted = refl;
    whole = omega arith;
    echoed = sym (append-nil s.sent);
  }

  lands :
      (o : Option (ℤ × Echo)) (n n' : ℤ) (t s' : Echo)
      → o ≡ some (n', t)
      → o ≡ some (n, s')
      → IsEcho have_return total t
      → IsEcho have_return total s'
  lands o n n' t s' e h v =
      let same : t ≡ s' = ground (arith, e, h) in subst (IsEcho have_return total) same v

  -- A round that comes to its end leaves an IsEcho state.
  pub round-IsEcho :
      (r : Round) (s s' : Echo) (n : ℤ)
      → IsLawfulRound r
      → IsEcho have_return total s
      → round have_return rx_buf_len r s ≡ some (n, s')
      → IsEcho have_return total s'
  round-IsEcho r s s' n law v h = go (r.recv (min rx_buf_len s.max_dequeue)) refl
    where
      go : (x : Received) → r.recv (min rx_buf_len s.max_dequeue) ≡ x → IsEcho have_return total s'
      go (error e) q =
          lands _ n _ _ s' (round_error e r s q) h
            (record { conserved = v.conserved; echoed = v.echoed })
      go (got bytes) q =
          let fits : length bytes ≤ min rx_buf_len s.max_dequeue =
            subst (Fits _) q (law.0 (min rx_buf_len s.max_dequeue)) in
          elim (Bool-cases (have_return && ltb 0 (length bytes))) [
            | inr quiet ↦
                lands _ n _ _ s' (round_quiet bytes r s q quiet) h
                  (quiet-IsEcho bytes s v fits quiet)
            | inl echo ↦ elim (Option-cases (reflect bytes r.tries (begin bytes s))) [
              | inl e ↦ absurd (ground (arith, round_echo bytes r s none q echo e, h))
              | inr (d, e) ↦
                  let w =
                    reflect-IsWhole s.sent bytes (length bytes) r.tries (begin bytes s) d law.1
                      (ground (arith, echo)) (begin-IsReflected bytes s) e in
                  lands _ n _ _ s' (round_echo bytes r s (some d) q echo e) h
                    (echo-IsEcho bytes r s d v fits (ground (arith, echo)) w.1)
            ]
          ]

  -- The outer loop, when it ends.
  rounds-IsEcho :
      (rs : List Round) (s s' : Echo)
      → All IsLawfulRound rs
      → IsEcho have_return total s
      → rounds have_return rx_buf_len rs s ≡ some s'
      → IsEcho have_return total s' × (s'.max_dequeue ≡ 0)
  unfolding rounds
  rounds-IsEcho [] s s' law v h = absurd (ground (arith, h))
  rounds-IsEcho (r ∷ rs) s s' law v h = elim (Option-cases (round have_return rx_buf_len r s)) [
    | inl e ↦ absurd (ground (arith, e, h))
    | inr ((n, t), e) ↦
        let w = round-IsEcho r s t n law.0 v e in
        elim (Bool-cases ((is_negative n || ltb 0 t.max_dequeue) && not r.stop)) [
          | inl again ↦ rounds-IsEcho rs t s' law.1 w (ground (arith, e, again, h))
          | inr over ↦
              let same : t ≡ s' = ground (arith, e, over, h) in
              subst (λ u. IsEcho have_return total u × (u.max_dequeue ≡ 0)) same
                (w, ground (arith, over, law.0.2))
        ]
  ]

  -- If no call gives or takes more than it is asked for, and nobody stops the server,
  -- server_handle_fifo_event_rx returns only once the FIFO is empty; of the `total` bytes, fewer than 2 ^ 32, none is lost, and with
  -- have_return exactly the bytes received were sent, in order, whatever pieces app_send took and
  -- whatever errors the calls gave.
  pub handle_fifo_event_rx-IsEcho :
      (rs : List Round) (s s' : Echo)
      → All IsLawfulRound rs
      → IsEcho have_return total s
      → server_handle_fifo_event_rx have_return rx_buf_len rs s ≡ some s'
      → IsEcho have_return total s' × (s'.max_dequeue ≡ 0)
  unfolding server_handle_fifo_event_rx
  handle_fifo_event_rx-IsEcho rs s s' law v h = elim (Bool-cases (s.max_dequeue == 0)) [
    | inl e ↦
        let same : s ≡ s' = ground (arith, e, h) in
        subst (λ u. IsEcho have_return total u × (u.max_dequeue ≡ 0)) same (v, ground (arith, e))
    | inr e ↦ rounds-IsEcho rs s s' law v (ground (arith, e, h))
  ]
