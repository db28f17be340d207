-- ===== src/Status/Accounting.antt =====
-- The counters of src/status.h lose nothing between two prints.
use dpdk_perf.Common.{
  ℕ, ◌+◌, ◌-◌, ◌*◌, ◌%◌, ◌^◌, ◌≤◌, ◌<◌, ◌≡◌, List, [], ◌∷◌, arith, ltb, if◌then◌else◌, ◌⊎◌, inl,
  inr, Bool-cases,
}
use dpdk_perf.Status.{Status, Call, step, run, plain, prefix, divisor}

-- Sums over a run.
abbrev pub total_bytes : List Call → ℕ
total_bytes [] = 0
total_bytes (c ∷ cs) = c.bytes + total_bytes cs

abbrev pub total_pps : List Call → ℕ
total_pps [] = 0
total_pps (c ∷ cs) = c.pps + total_pps cs

abbrev pub total_calls : List Call → ℕ
total_calls [] = 0
total_calls (c ∷ cs) = 1 + total_calls cs

-- Sums over the prints.
abbrev pub printed_bits : List Status → ℕ
printed_bits [] = 0
printed_bits (s ∷ ss) = s.bytes_rate + printed_bits ss

abbrev pub printed_pps : List Status → ℕ
printed_pps [] = 0
printed_pps (s ∷ ss) = s.pps_rate + printed_pps ss

abbrev pub printed_calls : List Status → ℕ
printed_calls [] = 0
printed_calls (s ∷ ss) = s.call_rate + printed_calls ss

-- What the prints and the counters account for.
abbrev pub Accounts : Status × List Status → ℕ → ℕ → ℕ → Type 0
Accounts (s, printed) bytes pps calls =
    (printed_bits printed + 8 * s.bytes_count ≡ 8 * bytes)
    × (printed_pps printed + s.pps_count ≡ pps)
    × (printed_calls printed + s.call_count ≡ calls)

step-Accounts :
    (feq : ℕ) (c : Call) (s : Status) (printed : List Status) (bytes pps calls : ℕ)
    → 8 * (bytes + c.bytes) < 2 ^ 64
    → pps + c.pps < 2 ^ 64
    → calls + 1 < 2 ^ 64
    → Accounts (s, printed) bytes pps calls
    → let r = step feq c.now c.later c.bytes c.pps s in
      Accounts
        (r.0, if r.1 then r.0 ∷ printed else printed)
        (bytes + c.bytes)
        (pps + c.pps)
        (calls + 1)
unfolding step
step-Accounts feq c s printed bytes pps calls hb hp hc v =
    elim (Bool-cases (ltb ((c.now + 2 ^ 64 - s.last) % 2 ^ 64) feq)) [
      | inl e ↦ rw e (omega arith)
      | inr e ↦ rw e (omega arith)
    ]

-- Over any run of calls whose totals fit 64 bits, the bit, packet and call counts printed so far
-- and the ones still pending add up to all that was recorded: nothing is lost or counted twice,
-- whatever the clock reads.
pub run-Accounts :
    (feq : ℕ) (cs : List Call) (s : Status) (printed : List Status) (bytes pps calls : ℕ)
    → 8 * (bytes + total_bytes cs) < 2 ^ 64
    → pps + total_pps cs < 2 ^ 64
    → calls + total_calls cs < 2 ^ 64
    → Accounts (s, printed) bytes pps calls
    → Accounts
        (run feq cs (s, printed))
        (bytes + total_bytes cs)
        (pps + total_pps cs)
        (calls + total_calls cs)
unfolding run
run-Accounts feq [] s printed bytes pps calls hb hp hc v = omega arith
run-Accounts feq (c ∷ cs) s printed bytes pps calls hb hp hc v =
    let r = step feq c.now c.later c.bytes c.pps s in
    let ih =
      run-Accounts feq cs r.0 (if r.1 then r.0 ∷ printed else printed) (bytes + c.bytes)
        (pps + c.pps) (calls + 1) (omega arith) (omega arith) (omega arith)
        (step-Accounts feq c s printed bytes pps calls (omega arith) (omega arith) (omega arith)
          v) in
    omega (arith, ih)

-- The unit chosen is the largest that the number exceeds: the quotient printed is above 1, and at
-- most 1024 or in units of G; a number up to 1024 is printed as it is.
pub prefix_bounds :
    (n : ℕ)
    → ((prefix n ≡ plain) × (n ≤ 1024))
      ⊎ ((divisor (prefix n) < n)
          × ((n ≤ 1024 * divisor (prefix n)) ⊎ (divisor (prefix n) ≡ 1024 * 1024 * 1024)))
unfolding prefix
prefix_bounds n = ground arith
