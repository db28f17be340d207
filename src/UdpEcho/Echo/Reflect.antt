-- ===== src/UdpEcho/Echo/Reflect.antt =====
-- The inner loop of server_handle_fifo_event_rx in src/udp-echo/main.c.
use mathlib.Core.List.{append_assoc}
use dpdk_perf.Common.{
  ℕ, zero, suc, ◌+◌, ◌-◌, ◌≤◌, ◌<◌, ◌≡◌, refl, sym, ap, ◌∙◌, true, false, some, List, [], ◌∷◌, ◌++◌,
  arith, take, drop, length, All, Bool-cases, inl, inr, not, ◌&&◌, ◌||◌,
}
use dpdk_perf.Common.Int.{ℤ, pos, negsuc, is_positive, pos_part}
use dpdk_perf.UdpEcho.Echo.{Try, Reflection, move_on, reflect}

-- app_send takes no more than it is offered, and nobody stops the server.
abbrev pub IsLawful : Try → Type 0
IsLawful t = ((n : ℕ) → pos_part (t.app_send n) ≤ n) × (t.stop ≡ false)

-- The bytes before the offset were sent, `left` behind it are still to send.
pub record IsReflected (before rx_buf : List ℕ) (left : ℕ) (r : Reflection) : Type 0 where
  pub counted : r.n_read ≡ pos left
  pub whole : r.offset + left ≡ length rx_buf
  pub echoed : r.sent ≡ before ++ take r.offset rx_buf

take_nil : (n : ℕ) → take {A = ℕ} n [] ≡ []
take_nil zero = refl
take_nil (suc n) = refl

take-more : (xs : List ℕ) (i k : ℕ) → take i xs ++ take k (drop i xs) ≡ take (i + k) xs
take-more xs zero k = ap (λ n. take n xs) (omega arith)
take-more [] (suc i) k = take_nil k ∙ sym (take_nil (suc i + k))
take-more (x ∷ xs) (suc i) k =
    ap (◌∷◌ x) (take-more xs i k)
    ∙ ap (λ (n : ℕ). take n (x ∷ xs)) {x = suc (i + k)} {y = suc i + k} (omega arith)

take_whole : (xs : List ℕ) (n : ℕ) → n ≡ length xs → take n xs ≡ xs
take_whole [] n e = take_nil n
take_whole (x ∷ xs) zero e = absurd (omega arith)
take_whole (x ∷ xs) (suc n) e = ap (◌∷◌ x) (take_whole xs n (omega arith))

is_positive-pos_part :
    (x : ℤ) → (is_positive x ≡ true → 0 < pos_part x) × (is_positive x ≡ false → pos_part x ≡ 0)
is_positive-pos_part (pos n) = ground arith
is_positive-pos_part (negsuc e) = ground arith

pub move_on-IsReflected :
    (before rx_buf : List ℕ) (left : ℕ) (rv : ℤ) (r : Reflection)
    → IsReflected before rx_buf left r
    → pos_part rv ≤ left
    → IsReflected before rx_buf (left - pos_part rv) (move_on rx_buf rv r)
unfolding move_on
move_on-IsReflected before rx_buf left rv r v fits = elim (Bool-cases (is_positive rv)) [
  | inl e ↦
      rw (e, move_on)
        (record {
          counted = ground (arith, v.counted);
          whole = omega (arith, v.whole);
          echoed =
              ap (λ l. l ++ take (pos_part rv) (drop r.offset rx_buf)) v.echoed
              ∙ append_assoc before _ _
              ∙ ap (λ l. before ++ l) (take-more rx_buf r.offset (pos_part rv));
        })
  | inr e ↦
      let same : left - pos_part rv ≡ left = omega (arith, (is_positive-pos_part rv).1 e) in
      rw (e, move_on, same) v
]

pub whole_at_end :
    (before rx_buf : List ℕ) (left : ℕ) (r q : Reflection)
    → IsReflected before rx_buf left r
    → q ≡ r
    → left ≡ 0
    → (q.n_read ≡ pos 0) × (q.sent ≡ before ++ rx_buf)
whole_at_end before rx_buf left r q v same none_left = (
  ap (λ (x : Reflection). x.n_read) same ∙ v.counted ∙ ap pos none_left,
  ap (λ (x : Reflection). x.sent) same
      ∙ v.echoed
      ∙ ap (λ l. before ++ l) (take_whole rx_buf r.offset (omega (arith, v.whole))),
)

-- Once the loop ends by itself all bytes were sent.
pub reflect-IsWhole :
    (before rx_buf : List ℕ) (left : ℕ) (ts : List Try) (r q : Reflection)
    → All IsLawful ts
    → 0 < left
    → IsReflected before rx_buf left r
    → reflect rx_buf ts r ≡ some q
    → (q.n_read ≡ pos 0) × (q.sent ≡ before ++ rx_buf)
unfolding reflect
reflect-IsWhole before rx_buf left [] r q law p v h = absurd (ground (arith, h))
reflect-IsWhole before rx_buf left (t ∷ ts) r q law p v h =
    let rv : ℤ = t.app_send (pos_part r.n_read) in
    let fits : pos_part rv ≤ left = rw v.counted (law.0.0 left) in
    let w = move_on-IsReflected before rx_buf left rv r v fits in
    let r' = move_on rx_buf rv r in
    let sign = is_positive-pos_part rv in
    elim (Bool-cases ((not (is_positive rv) || is_positive r'.n_read) && not t.stop)) [
      | inl again ↦
          reflect-IsWhole before rx_buf (left - pos_part rv) ts r' q law.1
            (ground (arith, again, sign, w.counted)) w (ground (arith, again, h))
      | inr over ↦
          whole_at_end before rx_buf _ r' q w (ground (arith, over, h))
            (ground (arith, over, sign, w.counted, law.0.1))
    ]

-- A lawful try that takes at least a byte if it is offered one.
abbrev pub IsEager : Try → Type 0
IsEager t = IsLawful t × ((n : ℕ) → 0 < n → 0 < pos_part (t.app_send n))

-- The loop ends within as many tries as there are bytes.
pub reflect_total :
    (before rx_buf : List ℕ) (left : ℕ) (ts : List Try) (r : Reflection)
    → All IsEager ts
    → 0 < left
    → left ≤ length ts
    → IsReflected before rx_buf left r
    → (q : Reflection) × (reflect rx_buf ts r ≡ some q)
unfolding reflect
reflect_total before rx_buf left [] r eager p enough v = absurd (omega arith)
reflect_total before rx_buf left (t ∷ ts) r eager p enough v =
    let rv : ℤ = t.app_send (pos_part r.n_read) in
    let fits : pos_part rv ≤ left = rw v.counted (eager.0.0.0 left) in
    let some_taken : 0 < pos_part rv = rw v.counted (eager.0.1 left p) in
    let w = move_on-IsReflected before rx_buf left rv r v fits in
    let r' = move_on rx_buf rv r in
    elim (Bool-cases ((not (is_positive rv) || is_positive r'.n_read) && not t.stop)) [
      | inl again ↦
          let rest =
            reflect_total before rx_buf (left - pos_part rv) ts r' eager.1
              (ground (arith, again, is_positive-pos_part rv, w.counted)) (omega arith) w in
          (rest.0, ground (arith, again, rest.1))
      | inr over ↦ (r', ground (arith, over))
    ]
