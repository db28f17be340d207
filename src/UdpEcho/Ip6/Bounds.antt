-- ===== src/UdpEcho/Ip6/Bounds.antt =====
-- The loop of the address reader on every input: how far its counters go.
use native.Mathlib.Nat.{pow-suc}
use dpdk_perf.Common.{
  [], Option, none, refl, ℕ, zero, suc, ◌+◌, ◌%◌, ◌^◌, ◌≤◌, ◌<◌, ◌≡◌, refl, ◌⊎◌, List, ◌∷◌, some,
  arith, length, length-set,
}
use dpdk_perf.Common.Bits.{shift-bit_or}
use dpdk_perf.UdpEcho.Ip6.{scan, Scan, Lexeme, hex, colon, other, lex, accept, step, start, n_quads}

-- Between two rounds of the loop: the quads and digits counted fit, a pending quad has its place
-- in the array, and "::" stands among the quads read.
pub record IsBounded (s : Scan) : Type 0 where
  pub array : length s.hex_quads ≡ n_quads
  pub quads : s.n_hex_quads ≤ n_quads
  pub digits : s.n_hex_digits ≤ 4
  pub pending : 0 < s.n_hex_digits → s.n_hex_quads < n_quads
  pub value : s.hex_quad < 16 ^ s.n_hex_digits
  pub colons : s.n_colon ≤ 2
  pub place : (s.double_colon_index ≡ n_quads) ⊎ (s.double_colon_index ≤ s.n_hex_quads)

hex_small : (k : ℕ) → k < 4 → 16 ^ k ≤ 2 ^ 12
hex_small zero h = omega arith
hex_small (suc zero) h = omega arith
hex_small (suc (suc zero)) h = omega arith
hex_small (suc (suc (suc zero))) h = omega arith
hex_small (suc (suc (suc (suc k)))) h = absurd (omega arith)

hex_le : (k : ℕ) → k ≤ 4 → 16 ^ k ≤ 2 ^ 16
hex_le zero h = omega arith
hex_le (suc zero) h = omega arith
hex_le (suc (suc zero)) h = omega arith
hex_le (suc (suc (suc zero))) h = omega arith
hex_le (suc (suc (suc (suc zero)))) h = omega arith
hex_le (suc (suc (suc (suc (suc k))))) h = absurd (omega arith)

lex-lt : (c n d : ℕ) → lex c n ≡ hex d → d < 16
unfolding lex
lex-lt c n d h = ground arith

lex_colon : (c n : ℕ) → lex c n ≡ colon → n < 2
unfolding lex
lex_colon c n h = ground arith

accept-IsBounded :
    (d : ℕ) (s : Scan) {t : Scan} → d ≤ 16 → IsBounded s → accept d s ≡ some t → IsBounded t
unfolding accept
accept-IsBounded d s hd v h = ground (
  arith,
  shift-bit_or 4 s.hex_quad d,
  hex_small s.n_hex_digits,
  pow-suc 16 s.n_hex_digits,
  length-set s.hex_quads s.n_hex_quads (s.hex_quad % 2 ^ 16),
)

-- One round of the loop, on the character c.
abbrev pub Round : ℕ → Scan → Scan → Type 0
Round c s t = step (lex c s.n_colon) s ≡ some (some t)

-- The states that the loop passes through.
pub data Visits : List ℕ → Scan → Scan → Type 0 where
  here : {cs : List ℕ} {s : Scan} → Visits cs s s
  next : {c : ℕ} {cs : List ℕ} {s t u : Scan} → Round c s t → Visits cs t u → Visits (c ∷ cs) s u

step-IsBounded :
    (x : Lexeme) (s : Scan) {t : Scan}
    → ((d : ℕ) → x ≡ hex d → d < 16)
    → (x ≡ colon → s.n_colon < 2)
    → IsBounded s
    → step x s ≡ some (some t)
    → IsBounded t
unfolding step
step-IsBounded (hex d) s small few v h =
    accept-IsBounded d s (omega (arith, small d refl)) v (ground arith)
step-IsBounded colon s small few v h =
    accept-IsBounded 16 (record s { n_colon = s.n_colon + 1 }) (omega arith)
      (ground (arith, few refl)) (ground arith)
step-IsBounded other s small few v h = cc

Round-IsBounded : (c : ℕ) (s : Scan) {t : Scan} → IsBounded s → Round c s t → IsBounded t
Round-IsBounded c s v h =
    step-IsBounded (lex c s.n_colon) s (λ d. lex-lt c s.n_colon d) (lex_colon c s.n_colon) v h

Visits-IsBounded : {cs : List ℕ} {s t : Scan} → IsBounded s → Visits cs s t → IsBounded t
Visits-IsBounded v here = v
Visits-IsBounded v (next {c = c} {s = s} r m) = Visits-IsBounded (Round-IsBounded c s v r) m

pub start-IsBounded : (junk : List ℕ) → length junk ≡ n_quads → IsBounded (start junk)
start-IsBounded junk e = ground arith

-- On any input, in every state that the loop passes through, a pending quad is written inside the
-- array, it has at most four digits and fits 16 bits, and the place of "::" is among the quads
-- read.
pub unformat_bounds :
    (input junk : List ℕ) {s : Scan}
    → length junk ≡ n_quads
    → Visits input (start junk) s
    → IsBounded s × (s.hex_quad < 2 ^ 16)
unformat_bounds input junk {s} e m =
    let v = Visits-IsBounded (start-IsBounded junk e) m in
    (v, omega (arith, v.value, v.digits, hex_le s.n_hex_digits))

some_pair {ℓ κ} :
    {A : Type ℓ} {B : Type κ} {a a' : A} {b b' : B}
    → ◌≡◌ {A = Option (A × B)} (some (a, b)) (some (a', b'))
    → a ≡ a'
some_pair h = ground (arith, h)

-- The state in which the loop ends is one of them.
pub scan-Visits : (cs rest : List ℕ) (s t : Scan) → scan cs s ≡ some (t, rest) → Visits cs s t
unfolding scan
scan-Visits [] rest s t h = rw (← some_pair h) here
scan-Visits (c ∷ cs) rest s t h = go (step (lex c s.n_colon) s) refl (λ u. scan-Visits cs rest u t)
  where
    go :
        (o : Option (Option Scan))
        → step (lex c s.n_colon) s ≡ o
        → ((u : Scan) → scan cs u ≡ some (t, rest) → Visits cs u t)
        → Visits (c ∷ cs) s t
    go none q more = absurd (ground (arith, q))
    go (some none) q more = rw (← some_pair (rw (q, scan) at h)) here
    go (some (some u)) q more = next q (more u (rw (q, scan) at h))

-- So the state after the loop is bounded too.
pub scan-IsBounded :
    (cs rest : List ℕ) (s t : Scan) → IsBounded s → scan cs s ≡ some (t, rest) → IsBounded t
scan-IsBounded cs rest s t v h = Visits-IsBounded v (scan-Visits cs rest s t h)
