-- ===== src/VclServer/Loop/Text.antt =====
-- The buffer accesses of vts_server_echo in src/vcl-test-server/main.c.
use dpdk_perf.Common.{
  ℕ, zero, suc, ◌+◌, ◌-◌, ◌≤◌, ◌<◌, ◌≡◌, refl, List, [], ◌∷◌, some, arith, length, get_elem?, set,
  ◌==◌, Bool-cases, inl, inr, length-set,
}
use dpdk_perf.VclServer.Loop.{strlen, terminator, echo_text}

strlen-set :
    (xs : List ℕ) (i : ℕ)
    → i < length xs
    → (strlen (set xs i 0) ≤ i) × (get_elem? (set xs i 0) (strlen (set xs i 0)) ≡ some 0)
unfolding strlen
strlen-set [] i h = absurd (omega arith)
strlen-set (x ∷ xs) zero h = (omega arith, refl)
strlen-set (x ∷ xs) (suc i) h =
    let ih = strlen-set xs i (omega arith) in
    elim (Bool-cases (x == 0)) [ inl e ↦ ground (arith, e) | inr e ↦ ground (arith, e, ih) ]

-- Whatever was read into a buffer that is not empty, the echo puts its terminator inside the
-- buffer and sends no more than the bytes up to it: at most the bytes received and one more, at
-- most the buffer, and the last byte sent is 0.
pub echo_text_bounds :
    (rx_bytes : ℕ) (buf : List ℕ)
    → 0 < length buf
    → (terminator rx_bytes (length buf) < length buf)
      × ((echo_text rx_bytes buf).0 ≤ rx_bytes + 1)
      × ((echo_text rx_bytes buf).0 ≤ length (echo_text rx_bytes buf).1)
      × (get_elem? (echo_text rx_bytes buf).1 ((echo_text rx_bytes buf).0 - 1) ≡ some 0)
unfolding echo_text
echo_text_bounds rx_bytes buf h =
    let t : ℕ = terminator rx_bytes (length buf) in
    let inside : t < length buf = ground arith in
    let ends = strlen-set buf t inside in
    let last : strlen (set buf t 0) + 1 - 1 ≡ strlen (set buf t 0) = omega arith in
    (inside, ground (arith, ends.0), omega (arith, ends.0, length-set buf t 0), rw last ends.1)
