-- ===== src/UdpEcho/CutThrough/Mirror.antt =====
-- What the cut-through thread of src/udp-echo/main.c sends back and counts.
use mathlib.Core.List.{append-nil}
use dpdk_perf.Common.{
  ℕ, ◌+◌, ◌-◌, ◌%◌, ◌^◌, ◌≤◌, ◌≡◌, refl, sym, ap, subst, ◌∙◌, Bool, true, false, Option, some, List,
  [], ◌∷◌, ◌++◌, arith, length, All, Bool-cases, Option-cases, inl, inr, if◌then◌else◌,
  length-append,
}
use dpdk_perf.Common.Int.{ℤ, pos, is_positive, pos_part}
use dpdk_perf.UdpEcho.Echo.{Reflection, move_on}
use dpdk_perf.UdpEcho.Echo.Reflect.{IsReflected, move_on-IsReflected, whole_at_end}
use dpdk_perf.UdpEcho.CutThrough.{
  Turn, CutThrough, wait_for_bytes, send_all, hand_on, turn, cut_through_thread,
}

-- svm_fifo_enqueue_nowait takes no more than it is offered.
abbrev pub IsLawful : (ℕ → ℤ) → Type 0
IsLawful enqueue = (n : ℕ) → pos_part (enqueue n) ≤ n

send_all-IsWhole :
    (before buffer : List ℕ) (left : ℕ) (fs : List (ℕ → ℤ)) (r q : Reflection)
    → All IsLawful fs
    → IsReflected before buffer left r
    → send_all buffer fs r ≡ some q
    → (q.sent ≡ before ++ buffer) × (q.offset ≡ length buffer)
unfolding send_all
send_all-IsWhole before buffer left [] r q law v h = elim (Bool-cases (is_positive r.n_read)) [
  | inl e ↦ absurd (ground (arith, e, h))
  | inr e ↦
      let same : q ≡ r = ground (arith, e, h) in
      let none_left : left ≡ 0 = ground (arith, e, v.counted) in
      (
        (whole_at_end before buffer left r q v same none_left).1,
        ap (λ (x : Reflection). x.offset) same ∙ omega (arith, v.whole),
      )
]
send_all-IsWhole before buffer left (f ∷ fs) r q law v h =
    let rv : ℤ = f (pos_part r.n_read) in
    let fits : pos_part rv ≤ left = rw v.counted (law.0 left) in
    elim (Bool-cases (is_positive r.n_read)) [
      | inl e ↦
          send_all-IsWhole before buffer (left - pos_part rv) fs (move_on buffer rv r) q law.1
            (move_on-IsReflected before buffer left rv r v fits) (ground (arith, e, h))
      | inr e ↦
          let same : q ≡ r = ground (arith, e, h) in
          let none_left : left ≡ 0 = ground (arith, e, v.counted) in
          (
            (whole_at_end before buffer left r q v same none_left).1,
            ap (λ (x : Reflection). x.offset) same ∙ omega (arith, v.whole),
          )
    ]

-- The counters are those of the bytes, and with have_return the bytes received were sent.
pub record IsMirror (have_return : Bool) (s : CutThrough) : Type 0 where
  pub counted_in : s.server_bytes_received ≡ length s.received % 2 ^ 64
  pub counted_out : s.server_bytes_sent ≡ length s.sent % 2 ^ 64
  pub echoed : s.sent ≡ (if have_return then s.received else [])

lands :
    (have_return : Bool) (o : Option CutThrough) (a b : CutThrough)
    → o ≡ some a
    → o ≡ some b
    → IsMirror have_return a
    → IsMirror have_return b
lands have_return o a b e h v =
    let same : a ≡ b = ground (arith, e, h) in subst (IsMirror have_return) same v

hand_on-IsMirror :
    (have_return : Bool) (t : Turn) (bytes : List ℕ) (s s' : CutThrough)
    → All IsLawful t.enqueue_nowait
    → IsMirror have_return s
    → hand_on have_return t bytes s ≡ some s'
    → IsMirror have_return s'
hand_on-IsMirror false t bytes s s' law v h = lands false _ _ s' refl h (record {
  counted_in = omega (arith, v.counted_in, length-append s.received bytes);
  counted_out = v.counted_out;
  echoed = v.echoed;
})
hand_on-IsMirror true t bytes s s' law v h =
    let begin : Reflection = record { n_read = pos (length bytes); offset = 0; sent = s.sent } in
    elim (Option-cases (send_all bytes t.enqueue_nowait begin)) [
      | inl e ↦ absurd (ground (arith, e, h))
      | inr (q, e) ↦
          let w =
            send_all-IsWhole s.sent bytes (length bytes) t.enqueue_nowait begin q law
              (record { counted = refl; whole = omega arith; echoed = sym (append-nil s.sent) })
              e in
          let u : CutThrough = record {
            server_bytes_received = (s.server_bytes_received + length bytes) % 2 ^ 64;
            server_bytes_sent = (s.server_bytes_sent + q.offset) % 2 ^ 64;
            received = s.received ++ bytes;
            sent = q.sent;
          } in
          let long : length q.sent ≡ length s.sent + length bytes =
            ap length w.0 ∙ length-append s.sent bytes in
          lands true _ u s' (ground (arith, e)) h (record {
            counted_in = omega (arith, v.counted_in, length-append s.received bytes);
            counted_out = omega (arith, v.counted_out, long, w.1);
            echoed = w.0 ∙ ap (λ l. l ++ bytes) v.echoed;
          })
    ]

abbrev pub IsLawfulTurn : Turn → Type 0
IsLawfulTurn t = All IsLawful t.enqueue_nowait

-- Whenever the thread ends, with have_return exactly the bytes received were sent, in order and
-- whatever pieces the FIFO took, and without it none were; and the counters, of 64 bits, are the
-- numbers of these bytes, if all this was so at the start. svm_fifo_enqueue_nowait takes no more
-- than it is offered, but may fail.
pub cut_through_thread-IsMirror :
    (have_return : Bool) (ts : List Turn) (s s' : CutThrough)
    → All IsLawfulTurn ts
    → IsMirror have_return s
    → cut_through_thread have_return ts s ≡ some s'
    → IsMirror have_return s'
unfolding cut_through_thread turn
cut_through_thread-IsMirror have_return [] s s' law v h = absurd (ground (arith, h))
cut_through_thread-IsMirror have_return (t ∷ ts) s s' law v h =
    elim (Option-cases (wait_for_bytes t.reads)) [
      | inl e ↦ absurd (ground (arith, e, h))
      | inr (bytes, e) ↦ elim (Option-cases (hand_on have_return t bytes s)) [
        | inl f ↦ absurd (ground (arith, e, f, h))
        | inr (u, f) ↦
            let w = hand_on-IsMirror have_return t bytes s u law.0 v f in
            elim (Bool-cases t.stop) [
              | inl g ↦ lands have_return _ u s' (ground (arith, e, f, g)) h w
              | inr g ↦
                  cut_through_thread-IsMirror have_return ts u s' law.1 w
                    (ground (arith, e, f, g, h))
            ]
      ]
    ]
