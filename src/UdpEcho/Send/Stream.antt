-- ===== src/UdpEcho/Send/Stream.antt =====
-- What the client of src/udp-echo/main.c puts on the wire.
use dpdk_perf.Common.{
  ℕ, ◌+◌, ◌%◌, ◌^◌, ◌≤◌, ◌<◌, ◌≡◌, refl, ap, subst, ◌∙◌, Bool, false, ◌||◌, some, List, [], ◌∷◌,
  ◌++◌, arith, take, drop, ◌==◌, All, Bool-cases, length, inl, inr,
}
use dpdk_perf.Common.Int.{pos_part, is_positive}
use dpdk_perf.UdpEcho.Send.Ramp.{ramp, fill_pattern-ramp, ramp_mod, ramp-append, take-drop-ramp}
use dpdk_perf.UdpEcho.Send.{
  Transfer, Answer, test_buf_len, connect_test_data, bytes_this_chunk, send_test_chunk, send_loop,
}

-- app_send takes no more than it is offered.
abbrev pub IsLawful : Answer → Type 0
IsLawful a = (n : ℕ) → pos_part (a.app_send n) ≤ n

-- Of `total` bytes those sent are the start of the pattern, and the others are still to send.
pub record IsStream (total : ℕ) (t : Transfer) : Type 0 where
  pub conserved : t.bytes_sent + t.bytes_to_send ≡ total
  pub pattern : t.wire ≡ ramp 0 t.bytes_sent

test_data-ramp : connect_test_data ≡ ramp 0 test_buf_len
unfolding connect_test_data
test_data-ramp = fill_pattern-ramp test_buf_len 0

chunk_pos :
    (t : Transfer) (space : ℕ) → 0 < t.bytes_to_send → 0 < space → 0 < bytes_this_chunk t space
unfolding bytes_this_chunk
chunk_pos t space h k = omega arith

chunk_fits :
    (t : Transfer) (space : ℕ)
    → (t.bytes_sent % test_buf_len + bytes_this_chunk t space ≤ test_buf_len)
      × (bytes_this_chunk t space ≤ t.bytes_to_send)
      × (bytes_this_chunk t space ≤ space)
unfolding bytes_this_chunk
chunk_fits t space = omega arith

-- The bytes at the offset go on with the pattern from where the stream stands.
piece :
    (sent k : ℕ)
    → sent % test_buf_len + k ≤ test_buf_len
    → take k (drop (sent % test_buf_len) connect_test_data) ≡ ramp (0 + sent) k
piece sent k h =
    ap (λ l. take k (drop (sent % test_buf_len) l)) test_data-ramp
    ∙ take-drop-ramp k (sent % test_buf_len) 0 test_buf_len h
    ∙ ramp_mod (0 + sent % test_buf_len) (0 + sent) k (omega arith)

wire_grows :
    (t : Transfer) (k : ℕ)
    → t.wire ≡ ramp 0 t.bytes_sent
    → t.bytes_sent % test_buf_len + k ≤ test_buf_len
    → t.wire ++ take k (drop (t.bytes_sent % test_buf_len) connect_test_data)
      ≡ ramp 0 (t.bytes_sent + k)
wire_grows t k h l = rw (h, piece t.bytes_sent k l) (ramp-append 0 t.bytes_sent k)

chunk-IsStream :
    (total : ℕ) (a : Answer) (t : Transfer)
    → total < 2 ^ 64
    → IsLawful a
    → IsStream total t
    → IsStream total (send_test_chunk a t)
unfolding send_test_chunk
chunk-IsStream total a t bound law v =
    let chunk : ℕ = bytes_this_chunk t a.enq_space in
    let n : ℕ = pos_part (a.app_send chunk) in
    let small = law chunk in
    let fits = chunk_fits t a.enq_space in
    elim (Bool-cases (is_positive (a.app_send chunk))) [
      | inl e ↦ rw e (record {
        conserved = omega (arith, v.conserved);
        pattern = wire_grows t n v.pattern (omega arith) ∙ ap (ramp 0) (omega (arith, v.conserved));
      })
      | inr e ↦ rw e v
    ]

-- Whenever the loop ends, also by time_to_stop, the bytes taken are an initial run of the pattern
-- 0, 1, ..., 255, 0, ..., one for each byte counted in bytes_sent, and bytes_sent and bytes_to_send
-- add up to the number of bytes asked for, fewer than 2 ^ 64, if that was so before; app_send takes
-- no more than it is offered, but may fail.
pub send_loop-IsStream :
    (total : ℕ) (rounds : List (Bool × Answer)) (t t' : Transfer)
    → total < 2 ^ 64
    → All (λ r. IsLawful r.1) rounds
    → IsStream total t
    → send_loop rounds t ≡ some t'
    → IsStream total t'
unfolding send_loop
send_loop-IsStream total [] t t' b law v h = subst (IsStream total) (ground arith) v
send_loop-IsStream total ((stop, a) ∷ more) t t' b law v h =
    elim (Bool-cases (stop || t.bytes_to_send == 0)) [
      | inl e ↦ subst (IsStream total) (ground arith) v
      | inr e ↦
          send_loop-IsStream total more (send_test_chunk a t) t' b law.1
            (chunk-IsStream total a t b law.0 v) (ground arith)
    ]

-- The FIFO has room and takes at least one byte of those offered; nobody stops the client.
abbrev pub IsEager : Bool × Answer → Type 0
IsEager (stop, a) =
    (stop ≡ false)
    × (0 < a.enq_space)
    × ((n : ℕ) → (0 < n → 0 < pos_part (a.app_send n)) × (pos_part (a.app_send n) ≤ n))

chunk_progress :
    (total : ℕ) (a : Answer) (t : Transfer)
    → total < 2 ^ 64
    → IsEager (false, a)
    → IsStream total t
    → 0 < t.bytes_to_send
    → (send_test_chunk a t).bytes_to_send < t.bytes_to_send
unfolding send_test_chunk
chunk_progress total a t b eager v h =
    let chunk : ℕ = bytes_this_chunk t a.enq_space in
    let taken = eager.2 chunk in
    let fits = chunk_fits t a.enq_space in
    ground (arith, taken, fits, v.conserved, chunk_pos t a.enq_space h eager.1)

-- If at each round the FIFO has room and app_send takes some of the bytes offered, and nobody stops
-- the client, its loop ends within as many rounds as it has bytes to send, fewer than 2 ^ 64, and
-- then it has sent exactly the first bytes of the pattern, all of them.
pub send_loop_total :
    (total : ℕ) (rounds : List (Bool × Answer)) (t : Transfer)
    → total < 2 ^ 64
    → All IsEager rounds
    → IsStream total t
    → t.bytes_to_send ≤ length rounds
    → (t' : Transfer) × (send_loop rounds t ≡ some t')
      × (t'.bytes_to_send ≡ 0)
      × (t'.bytes_sent ≡ total)
      × (t'.wire ≡ ramp 0 total)
unfolding send_loop
send_loop_total total [] t b eager v h =
    let all : t.bytes_sent ≡ total = omega (arith, v.conserved) in
    (t, ground arith, omega arith, all, v.pattern ∙ ap (ramp 0) all)
send_loop_total total ((stop, a) ∷ more) t b eager v h = elim (Bool-cases (t.bytes_to_send == 0)) [
  | inl e ↦
      let all : t.bytes_sent ≡ total = ground (arith, v.conserved) in
      (t, ground arith, ground arith, all, v.pattern ∙ ap (ramp 0) all)
  | inr e ↦
      let v' = chunk-IsStream total a t b (λ n. (eager.0.2 n).1) v in
      let less = chunk_progress total a t b (refl, eager.0.1, eager.0.2) v (ground arith) in
      let r = send_loop_total total more (send_test_chunk a t) b eager.1 v' (omega arith) in
      (r.0, ground (arith, r.1, eager.0.0), r.2, r.3, r.4)
]
