-- ===== src/UdpEcho/Server/Queue.antt =====
-- The event loop of the server in src/udp-echo/main.c, over session events and echoes together.
use dpdk_perf.Common.{
  ℕ, ◌^◌, ◌<◌, ◌≡◌, refl, sym, ap, subst, ◌∙◌, Bool, true, false, Option, none, some, List, [], ◌∷◌,
  All, arith, length, if◌then◌else◌, Option-cases, inl, inr,
}
use dpdk_perf.UdpEcho.Vpp.{PoolOps, HashOps}
use dpdk_perf.UdpEcho.Session.{AppSession, handle_all}
use dpdk_perf.UdpEcho.Session.Tracking.{IsTracked, handle_all-IsTracked}
use dpdk_perf.UdpEcho.Echo.{Round, Echo, server_handle_fifo_event_rx}
use dpdk_perf.UdpEcho.Echo.Whole.{IsLawfulRound, IsEcho, handle_fifo_event_rx-IsEcho}
use dpdk_perf.UdpEcho.Server.{
  Job, broken, rx, control, Turn, Answered, nothing_yet, Served, handle_job, Ends, waiting, busy,
  returned, note_connections, handle_events,
}

-- Calls that give or take no more than they are asked for, and a number of bytes that fits a u32.
abbrev pub IsLawful : Turn → Type 0
IsLawful t = elim t.job [
  | broken ↦ Unit {0}
  | rx i n rs ↦ (n < 2 ^ 32) × All IsLawfulRound rs
  | control e ↦ Unit {0}
]

-- Every byte that was in the FIFO was received, and sent back if the server is to return it.
abbrev pub IsAnswered : Bool → Answered → Type 0
IsAnswered have_return a =
    (length a.echo.received ≡ a.max_dequeue)
    × (a.echo.sent ≡ (if have_return then a.echo.received else []))

some_inj {ℓ} : {A : Type ℓ} {a b : A} (d : A) → some a ≡ some b → a ≡ b
some_inj d e = ap (λ o. elim o [ none ↦ d | some x ↦ x ]) e

no_bytes : (b : Bool) → ◌≡◌ {A = List ℕ} [] (if b then [] else [])
no_bytes true = refl
no_bytes false = refl

module _ (P : PoolOps AppSession) (H : HashOps) (have_return : Bool) where
  pub record IsServing (s : Served P H) : Type 0 where
    pub tracked : IsTracked P H s.utm
    pub answered : All (IsAnswered have_return) s.echoes

  abbrev pub Serves : Ends P H → Type 0
  Serves (waiting s) = IsServing s
  Serves (busy s) = IsServing s
  Serves (returned s) = IsServing s

  module _ (rx_buf_len : ℕ) (remote : Option (ℕ × ℕ)) where
    echo-IsServing :
        (i n : ℕ) (rs : List Round) (s : Served P H) (x : Echo)
        → n < 2 ^ 32
        → All IsLawfulRound rs
        → IsServing s
        → server_handle_fifo_event_rx have_return rx_buf_len rs (nothing_yet n) ≡ some x
        → IsServing (record s {
          echoes = record { session_index = i; max_dequeue = n; echo = x } ∷ s.echoes;
        })
    echo-IsServing i n rs s x small law v e =
        let none_sent : [] ≡ (if have_return then [] else []) = no_bytes have_return in
        let at_start : IsEcho have_return n (nothing_yet n) = record {
          conserved = omega arith;
          echoed = none_sent;
        } in
        let (at_end, empty) =
          handle_fifo_event_rx-IsEcho have_return rx_buf_len n small rs (nothing_yet n) x law
            at_start e in
        record {
          tracked = v.tracked;
          answered = ((omega (arith, at_end.conserved, empty), at_end.echoed), v.answered);
        }

    job-IsServing :
        (t : Turn) (s s' : Served P H)
        → IsLawful t
        → IsServing s
        → handle_job P H have_return rx_buf_len remote t.job s ≡ some s'
        → IsServing s'
    unfolding handle_job handle_all
    job-IsServing t s s' law v e = go t.job law e
      where
        go :
            (j : Job)
            → IsLawful (record { job = j; stop = false; print = false })
            → handle_job P H have_return rx_buf_len remote j s ≡ some s'
            → IsServing s'
        go broken law' e' = subst IsServing (some_inj s e') v
        go (control ev) law' e' = subst IsServing (some_inj s e') (record {
          tracked = handle_all-IsTracked P H remote (ev ∷ []) s.utm v.tracked;
          answered = v.answered;
        })
        go (rx i n rs) law' e' =
            elim (Option-cases
              (server_handle_fifo_event_rx have_return rx_buf_len rs (nothing_yet n))) [
                | inl q ↦
                    let stuck : handle_job P H have_return rx_buf_len remote (rx i n rs) s ≡ none =
                      rw (q, handle_job) refl in
                    absurd (ground (arith, sym e' ∙ stuck))
                | inr (x, q) ↦
                    let it = echo-IsServing i n rs s x law'.0 law'.1 v q in
                    subst IsServing (some_inj s (sym (rw (q, handle_job) refl) ∙ e')) it
              ]

    note-IsServing :
        (b : Bool) (s : Served P H) → IsServing s → IsServing (note_connections P H b s)
    note-IsServing true s v = record { tracked = v.tracked; answered = v.answered }
    note-IsServing false s v = v

    -- Over any sequence of failures of the queue, session events and bytes that arrive, fewer
    -- than 2 ^ 32 in a FIFO, if no call gives or takes more than it is asked for and nobody stops
    -- the server within an echo: every handle leads to a live session that carries its own index,
    -- no two to the same one, and each echo that has ended took all the bytes that were in the
    -- FIFO and, with have_return, sent exactly these, in order, if that was so at the start.
    pub handle_events-Serves :
        (ts : List Turn) (s : Served P H)
        → All IsLawful ts
        → IsServing s
        → Serves (handle_events P H have_return rx_buf_len remote ts s)
    unfolding handle_events
    handle_events-Serves [] s law v = v
    handle_events-Serves (t ∷ ts) s (h, hs) v =
        elim (Option-cases (handle_job P H have_return rx_buf_len remote t.job s)) [
          | inl e ↦ rw (e, Serves) v
          | inr (s', e) ↦
              let w = job-IsServing t s s' h v e in
              let ih = λ (u : Served P H) (k : IsServing u). handle_events-Serves ts u hs k in
              rw (e, Serves) (next t.job t.stop t.print s' w ih)
        ]
      where
        next :
            (j : Job) (stop print : Bool) (s' : Served P H)
            → IsServing s'
            → ((u : Served P H)
                → IsServing u
                → Serves (handle_events P H have_return rx_buf_len remote ts u))
            → Serves (elim j [
              | broken ↦ handle_events P H have_return rx_buf_len remote ts s'
              | _ ↦
                  let rest =
                    handle_events P H have_return rx_buf_len remote ts
                      (note_connections P H print s') in
                  if stop then returned s' else rest
            ])
        next broken stop print s' w ih = ih s' w
        next (rx i n rs) true print s' w ih = w
        next (rx i n rs) false print s' w ih = ih _ (note-IsServing print s' w)
        next (control e) true print s' w ih = w
        next (control e) false print s' w ih = ih _ (note-IsServing print s' w)
