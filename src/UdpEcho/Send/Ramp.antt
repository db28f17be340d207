-- ===== src/UdpEcho/Send/Ramp.antt =====
-- The test pattern of src/udp-echo/main.c: runs of the byte sequence 0, 1, ..., 255, 0, ...
use dpdk_perf.Common.{
  ℕ, zero, suc, ◌+◌, ◌-◌, ◌%◌, ◌^◌, ◌≤◌, ◌≡◌, refl, ap, ap₂, ◌∙◌, List, [], ◌∷◌, ◌++◌, arith, take,
  drop, length,
}
use dpdk_perf.Common.Bits.{bit_and_byte}
use dpdk_perf.UdpEcho.Send.{fill_pattern}

-- The n bytes of the sequence from place s on.
unfoldable pub ramp : ℕ → ℕ → List ℕ
ramp s zero = []
ramp s (suc n) = s % 2 ^ 8 ∷ ramp (s + 1) n

pub length-ramp : (s n : ℕ) → length (ramp s n) ≡ n
unfolding ramp
length-ramp s zero = refl
length-ramp s (suc n) = ap suc (length-ramp (s + 1) n)

pub fill_pattern-ramp : (n i : ℕ) → fill_pattern n i ≡ ramp i n
unfolding ramp fill_pattern
fill_pattern-ramp zero i = refl
fill_pattern-ramp (suc n) i = ap₂ ◌∷◌ (bit_and_byte i) (fill_pattern-ramp n (i + 1))

pub ramp_mod : (s t n : ℕ) → s % 2 ^ 8 ≡ t % 2 ^ 8 → ramp s n ≡ ramp t n
unfolding ramp
ramp_mod s t zero h = refl
ramp_mod s t (suc n) h = ap₂ ◌∷◌ h (ramp_mod (s + 1) (t + 1) n (omega arith))

pub ramp-append : (s m n : ℕ) → ramp s m ++ ramp (s + m) n ≡ ramp s (m + n)
unfolding ramp
ramp-append s zero n = ap₂ ramp (omega arith) (omega arith)
ramp-append s (suc m) n =
    let e : s + suc m ≡ s + 1 + m = omega arith in
    let f : suc m + n ≡ suc (m + n) = omega arith in
    rw (e, f) (ap (◌∷◌ (s % 2 ^ 8)) (ramp-append (s + 1) m n))

take-ramp : (k s n : ℕ) → k ≤ n → take k (ramp s n) ≡ ramp s k
unfolding ramp
take-ramp zero s n h = refl
take-ramp (suc k) s zero h = absurd (omega arith)
take-ramp (suc k) s (suc n) h = ap (◌∷◌ (s % 2 ^ 8)) (take-ramp k (s + 1) n (omega arith))

drop-ramp : (k s n : ℕ) → k ≤ n → drop k (ramp s n) ≡ ramp (s + k) (n - k)
unfolding ramp
drop-ramp zero s n h = ap₂ ramp (omega arith) (omega arith)
drop-ramp (suc k) s zero h = absurd (omega arith)
drop-ramp (suc k) s (suc n) h =
    drop-ramp k (s + 1) n (omega arith) ∙ ap₂ ramp (omega arith) (omega arith)

-- A piece of a run is a run.
pub take-drop-ramp : (k off s n : ℕ) → off + k ≤ n → take k (drop off (ramp s n)) ≡ ramp (s + off) k
take-drop-ramp k off s n h =
    ap (take k) (drop-ramp off s n (omega arith)) ∙ take-ramp k (s + off) (n - off) (omega arith)
