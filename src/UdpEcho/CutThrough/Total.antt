-- ===== src/UdpEcho/CutThrough/Total.antt =====
-- The cut-through thread of src/udp-echo/main.c comes to its end once time_to_stop is set.
use dpdk_perf.Common.{
  ℕ, ◌+◌, ◌-◌, ◌%◌, ◌^◌, ◌≤◌, ◌<◌, ◌≡◌, ◌⊎◌, refl, sym, ap, ◌∙◌, if◌then◌else◌, Bool, true, false,
  some, List, [], ◌∷◌, ◌++◌, arith, length, All, Bool-cases, inl, inr,
}
use mathlib.Core.List.{append-nil, append_assoc}
use dpdk_perf.Common.Int.{ℤ, pos, is_positive, pos_part}
use dpdk_perf.UdpEcho.Echo.{Reflection, move_on, Received, error, got}
use dpdk_perf.UdpEcho.Echo.Reflect.{IsReflected, move_on-IsReflected}
use dpdk_perf.UdpEcho.Echo.Whole.{Fits}
use dpdk_perf.UdpEcho.CutThrough.{
  Turn, CutThrough, wait_for_bytes, send_all, hand_on, turn, cut_through_thread,
}
use dpdk_perf.UdpEcho.CutThrough.Mirror.{IsMirror, IsLawfulTurn, cut_through_thread-IsMirror}

-- svm_fifo_enqueue_nowait takes some of the bytes that it is offered.
abbrev pub IsEager : (ℕ → ℤ) → Type 0
IsEager enqueue = (n : ℕ) → (0 < n → 0 < pos_part (enqueue n)) × (pos_part (enqueue n) ≤ n)

-- Among the reads is one that gives bytes.
abbrev pub IsComing : List Received → Type 0
IsComing [] = ⊥
IsComing (error e ∷ rs) = IsComing rs
IsComing (got bytes ∷ rs) = (0 < length bytes) ⊎ IsComing rs

-- Bytes come, no more at once than the buffer holds, and the FIFO takes some each time that it is
-- offered any, as often as the buffer has bytes.
pub record IsEagerTurn (buffer_len : ℕ) (t : Turn) : Type 0 where
  pub coming : IsComing t.reads
  pub fits : All (Fits buffer_len) t.reads
  pub eager : All IsEager t.enqueue_nowait
  pub enough : buffer_len ≤ length t.enqueue_nowait

-- One of the turns ends with time_to_stop.
abbrev pub IsStopped : List Turn → Type 0
IsStopped [] = ⊥
IsStopped (t ∷ ts) = (t.stop ≡ true) ⊎ IsStopped ts

-- The bytes of the first read that gives any.
abbrev pub first_bytes : List Received → List ℕ
first_bytes [] = []
first_bytes (error e ∷ rs) = first_bytes rs
first_bytes (got [] ∷ rs) = first_bytes rs
first_bytes (got (b ∷ bs) ∷ rs) = b ∷ bs

-- The bytes that come in up to the end of the first turn that ends with time_to_stop.
abbrev pub incoming : List Turn → List ℕ
incoming [] = []
incoming (t ∷ ts) = first_bytes t.reads ++ (let rest = incoming ts in if t.stop then [] else rest)

wait_for_bytes_total :
    (n : ℕ) (rs : List Received)
    → IsComing rs
    → All (Fits n) rs
    → (wait_for_bytes rs ≡ some (first_bytes rs)) × (length (first_bytes rs) ≤ n)
unfolding wait_for_bytes
wait_for_bytes_total n [] c f = absurd c
wait_for_bytes_total n (error e ∷ rs) c f = wait_for_bytes_total n rs c f.1
wait_for_bytes_total n (got (b ∷ bs) ∷ rs) c f = (ground arith, f.0)
wait_for_bytes_total n (got [] ∷ rs) (inl some_come) f = absurd (omega (arith, some_come))
wait_for_bytes_total n (got [] ∷ rs) (inr later) f = wait_for_bytes_total n rs later f.1

send_all_total :
    (before buffer : List ℕ) (left : ℕ) (fs : List (ℕ → ℤ)) (r : Reflection)
    → All IsEager fs
    → left ≤ length fs
    → IsReflected before buffer left r
    → (q : Reflection) × (send_all buffer fs r ≡ some q)
unfolding send_all
send_all_total before buffer left [] r eager enough v = (r, ground (arith, v.counted))
send_all_total before buffer left (f ∷ fs) r eager enough v =
    elim (Bool-cases (is_positive r.n_read)) [
      | inl e ↦
          let rv : ℤ = f (pos_part r.n_read) in
          let fits : pos_part rv ≤ left = rw v.counted ((eager.0 left).1) in
          let p : 0 < left = ground (arith, e, v.counted) in
          let some_taken : 0 < pos_part rv = rw v.counted ((eager.0 left).0 p) in
          let w =
            send_all_total before buffer (left - pos_part rv) fs (move_on buffer rv r) eager.1
              (omega arith) (move_on-IsReflected before buffer left rv r v fits) in
          (w.0, rw e w.1)
      | inr e ↦ (r, rw e refl)
    ]

hand_on_total :
    (have_return : Bool) (t : Turn) (bytes : List ℕ) (s : CutThrough)
    → All IsEager t.enqueue_nowait
    → length bytes ≤ length t.enqueue_nowait
    → (s' : CutThrough) × (hand_on have_return t bytes s ≡ some s')
      × (s'.received ≡ s.received ++ bytes)
hand_on_total false t bytes s eager enough = (_, refl, refl)
hand_on_total true t bytes s eager enough =
    let begin : Reflection = record { n_read = pos (length bytes); offset = 0; sent = s.sent } in
    let (q, e) =
      send_all_total s.sent bytes (length bytes) t.enqueue_nowait begin eager enough
        (record { counted = refl; whole = omega arith; echoed = sym (append-nil s.sent) }) in
    (
      record {
        server_bytes_received = (s.server_bytes_received + length bytes) % 2 ^ 64;
        server_bytes_sent = (s.server_bytes_sent + q.offset) % 2 ^ 64;
        received = s.received ++ bytes;
        sent = q.sent;
      },
      rw (hand_on, e) refl,
      refl,
    )

turn_total :
    (have_return : Bool) (n : ℕ) (t : Turn) (s : CutThrough)
    → IsEagerTurn n t
    → (s' : CutThrough) × (turn have_return t s ≡ some s')
      × (s'.received ≡ s.received ++ first_bytes t.reads)
unfolding turn
turn_total have_return n t s v =
    let (e, l) = wait_for_bytes_total n t.reads v.coming v.fits in
    let w =
      hand_on_total have_return t (first_bytes t.reads) s v.eager (omega (arith, l, v.enough)) in
    (w.0, rw (turn, e) w.1, w.2)

reaches_stop :
    (have_return : Bool) (n : ℕ) (ts : List Turn) (s : CutThrough)
    → All (IsEagerTurn n) ts
    → IsStopped ts
    → (s' : CutThrough) × (cut_through_thread have_return ts s ≡ some s')
      × (s'.received ≡ s.received ++ incoming ts)
unfolding cut_through_thread
reaches_stop have_return n [] s v stopped = absurd stopped
reaches_stop have_return n (t ∷ ts) s v stopped =
    let (u, e, r) = turn_total have_return n t s v.0 in
    elim (Bool-cases t.stop) [
      | inl q ↦ (u, rw (cut_through_thread, e, q) refl, rw (q, append-nil (first_bytes t.reads)) r)
      | inr q ↦ elim stopped [
        | inl now ↦ absurd (ground (arith, q, now))
        | inr later ↦
            let (w, f, g) = reaches_stop have_return n ts u v.1 later in
            (
              w,
              rw (cut_through_thread, e, q) f,
              rw q (
                  g
                  ∙ ap (λ l. l ++ incoming ts) r
                  ∙ append_assoc s.received (first_bytes t.reads) (incoming ts)),
            )
      ]
    ]

turns-IsLawful : (n : ℕ) (ts : List Turn) → All (IsEagerTurn n) ts → All IsLawfulTurn ts
turns-IsLawful n [] v = tt
turns-IsLawful n (t ∷ ts) v = (each t.enqueue_nowait v.0.eager, turns-IsLawful n ts v.1)
  where
    each :
        (fs : List (ℕ → ℤ)) → All IsEager fs → All dpdk_perf.UdpEcho.CutThrough.Mirror.IsLawful fs
    each [] e = tt
    each (f ∷ fs) e = ((λ k. (e.0 k).1), each fs e.1)

-- If in each turn bytes come, no more at once than the buffer holds, and the FIFO takes some each time
-- that it is offered any, then the thread comes to its end, each turn within as many calls to enqueue
-- as the buffer has bytes: it has received, after what it had before, just the bytes that come in up
-- to the end of the first turn that ends with time_to_stop, in order. With have_return exactly the
-- bytes received were sent, in order, and without it none were; and the counters, of 64 bits, are
-- the numbers of these bytes, if all this was so at the start.
pub cut_through_thread_total :
    (have_return : Bool) (buffer_len : ℕ) (ts : List Turn) (s : CutThrough)
    → All (IsEagerTurn buffer_len) ts
    → IsStopped ts
    → IsMirror have_return s
    → (s' : CutThrough) × (cut_through_thread have_return ts s ≡ some s')
      × (s'.received ≡ s.received ++ incoming ts)
      × IsMirror have_return s'
cut_through_thread_total have_return buffer_len ts s eager stopped v =
    let (s', e, r) = reaches_stop have_return buffer_len ts s eager stopped in
    (
      s',
      e,
      r,
      cut_through_thread-IsMirror have_return ts s s' (turns-IsLawful buffer_len ts eager) v e,
    )
