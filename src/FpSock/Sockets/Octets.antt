-- ===== src/FpSock/Sockets/Octets.antt =====
-- The octets of an address that the macro IP4 of src/fp-sock/envs.h packs.
use dpdk_perf.Common.{
  ℕ, zero, suc, ◌+◌, ◌*◌, ◌/◌, ◌%◌, ◌^◌, ◌<◌, ◌≤◌, ◌≡◌, refl, ◌∙◌, max, bit_or, arith,
}
use dpdk_perf.Common.Bits.{shift-bit_or, bit_and_byte, bit_or_halve}
use dpdk_perf.FpSock.Sockets.{ip4}

max_comm : (a b : ℕ) → max a b ≡ max b a
max_comm a b = omega arith

-- Over any bound on both numbers.
comm_below : (n x y : ℕ) → x ≤ n → y ≤ n → bit_or x y ≡ bit_or y x
comm_below zero x y h k =
    let e : x ≡ 0 = omega arith in let e' : y ≡ 0 = omega arith in rw (e, e') refl
comm_below (suc n) x y h k =
    let half = comm_below n (x / 2) (y / 2) (omega arith) (omega arith) in
    omega (arith, bit_or_halve x y, bit_or_halve y x, half, max_comm (x % 2) (y % 2))

bit_or_comm : (x y : ℕ) → bit_or x y ≡ bit_or y x
bit_or_comm x y = comm_below (x + y) x y (omega arith) (omega arith)

-- Low bits joined to a number shifted left.
join : (k high low : ℕ) → low < 2 ^ k → bit_or low (high * 2 ^ k) ≡ high * 2 ^ k + low
join k high low h = bit_or_comm low (high * 2 ^ k) ∙ shift-bit_or k high low h

-- The address that IP4 packs has the low bytes of its arguments as its octets, the first one lowest,
-- and nothing above them: octets below 256 can be read back.
pub ip4_lem :
    (a b c d : ℕ)
    → ip4 a b c d ≡ d % 2 ^ 8 * 2 ^ 24 + (c % 2 ^ 8 * 2 ^ 16 + (b % 2 ^ 8 * 2 ^ 8 + a % 2 ^ 8))
unfolding ip4
ip4_lem a b c d =
    let low : ℕ = b % 2 ^ 8 * 2 ^ 8 + a % 2 ^ 8 in
    let one = join 8 (b % 2 ^ 8) (a % 2 ^ 8) (omega arith) in
    let two = join 16 (c % 2 ^ 8) low (omega arith) in
    let three = join 24 (d % 2 ^ 8) (c % 2 ^ 8 * 2 ^ 16 + low) (omega arith) in
    rw (bit_and_byte a, bit_and_byte b, bit_and_byte c, bit_and_byte d) (rw one (rw two three))
