-- ===== src/Common/Bits.antt =====
-- Bits at variables: `bit_or` of two numbers whose bits do not meet is their sum, and `bit_and` with
-- a byte of ones keeps the low byte.
use Prim.Native.Nat.{
  ℕ, zero, suc, ◌+◌, ◌*◌, ◌/◌, ◌%◌, ◌^◌, ◌≤◌, ◌<◌, min, max, bit_or, bit_and, digits,
  bit_or-bitwise, bit_and-bitwise,
}
use mathlib.Core.Path.{◌≡◌, refl, sym, ap}
use native.Mathlib.Nat.{pow-suc, mul_assoc}
use native.Mathlib.Omega.{arith}

-- Any operation on digits: `rest` is what it gives once the first number has run out.
module _ (rest : ℕ → ℕ) (on_digit : ℕ → ℕ → ℕ) where
  -- Two counts of digits that both reach the end of x agree.
  enough :
      (x y count count' : ℕ)
      → x ≤ count'
      → x ≤ count
      → digits rest on_digit count x y ≡ digits rest on_digit count' x y
  enough zero y zero zero _ _ = refl
  enough zero y zero (suc count') _ _ = refl
  enough zero y (suc count) zero _ _ = refl
  enough zero y (suc count) (suc count') _ _ = refl
  enough (suc x) y zero count' _ bad = absurd (omega arith)
  enough (suc x) y (suc count) zero bad _ = absurd (omega arith)
  enough (suc x) y (suc count) (suc count') k' k =
      let halves = enough (suc x / 2) (y / 2) count count' (omega arith) (omega arith) in
      ap (λ (high : ℕ). high * 2 + on_digit (suc x % 2) (y % 2)) halves

  -- A number that is not 0, by its lowest digit and its half.
  halve :
      (x y : ℕ)
      → digits rest on_digit (suc x) (suc x) y
        ≡ digits rest on_digit (suc x / 2) (suc x / 2) (y / 2) * 2 + on_digit (suc x % 2) (y % 2)
  halve x y =
      ap (λ (high : ℕ). high * 2 + on_digit (suc x % 2) (y % 2))
        (enough (suc x / 2) (y / 2) x (suc x / 2) (omega arith) (omega arith))

none-bit_or : (y : ℕ) → bit_or 0 y ≡ y
none-bit_or y = bit_or-bitwise 0 y

none-bit_and : (y : ℕ) → bit_and 0 y ≡ 0
none-bit_and y = bit_and-bitwise 0 y

-- The law for the lowest digit.
pub bit_or_halve : (x y : ℕ) → bit_or x y ≡ bit_or (x / 2) (y / 2) * 2 + max (x % 2) (y % 2)
bit_or_halve zero y = omega (arith, none-bit_or y, none-bit_or (y / 2))
bit_or_halve (suc x) y =
    let half : digits (λ b. b) max (suc x / 2) (suc x / 2) (y / 2) ≡ bit_or (suc x / 2) (y / 2) =
      sym (bit_or-bitwise (suc x / 2) (y / 2)) in
    omega (arith, bit_or-bitwise (suc x) y, halve (λ b. b) max x y, half)

pub bit_and_halve : (x y : ℕ) → bit_and x y ≡ bit_and (x / 2) (y / 2) * 2 + min (x % 2) (y % 2)
bit_and_halve zero y = omega (arith, none-bit_and y, none-bit_and (y / 2))
bit_and_halve (suc x) y =
    let half : digits (λ b. zero) min (suc x / 2) (suc x / 2) (y / 2)
        ≡ bit_and (suc x / 2) (y / 2) =
      sym (bit_and-bitwise (suc x / 2) (y / 2)) in
    omega (arith, bit_and-bitwise (suc x) y, halve (λ b. zero) min x y, half)

-- A number against 0, over any bound on it.
bit_or-none : (bound x : ℕ) → x < bound → bit_or x 0 ≡ x
bit_or-none zero x h = absurd (omega arith)
bit_or-none (suc bound) zero h = none-bit_or 0
bit_or-none (suc bound) (suc x) h =
    let half = bit_or-none bound (suc x / 2) (omega arith) in
    omega (arith, half, bit_or_halve (suc x) 0)

bit_and-none : (bound x : ℕ) → x < bound → bit_and x 0 ≡ 0
bit_and-none zero x h = absurd (omega arith)
bit_and-none (suc bound) zero h = none-bit_and 0
bit_and-none (suc bound) (suc x) h =
    let half = bit_and-none bound (suc x / 2) (omega arith) in
    omega (arith, half, bit_and_halve (suc x) 0)

shift_suc : (high k : ℕ) → high * 2 ^ suc k ≡ high * 2 ^ k * 2
shift_suc high k = rw pow-suc (sym (mul_assoc high (2 ^ k) 2))

shift_half : (high k : ℕ) → high * 2 ^ suc k / 2 ≡ high * 2 ^ k
shift_half high k = omega (arith, shift_suc high k)

-- A number shifted left, joined to low bits that fit the space.
pub shift-bit_or : (k high low : ℕ) → low < 2 ^ k → bit_or (high * 2 ^ k) low ≡ high * 2 ^ k + low
shift-bit_or zero high low h =
    let e : low ≡ 0 = omega arith in
    rw e (omega (arith, bit_or-none (high * 2 ^ 0 + 1) (high * 2 ^ 0) (omega arith)))
shift-bit_or (suc k) high low h = omega (
  arith,
  bit_or_halve (high * 2 ^ suc k) low,
  shift_suc high k,
  pow-suc 2 k,
  shift-bit_or k high (low / 2) (omega (arith, pow-suc 2 k)),
  ap (λ (t : ℕ). bit_or t (low / 2)) (shift_half high k),
)

bit_and_nibble : (x : ℕ) → bit_and x 0xf ≡ x % 16
bit_and_nibble x =
    let y : ℕ = x / 2 / 2 / 2 / 2 in
    let out = bit_and-none (y + 1) y (omega arith) in
    let top = bit_and_halve (x / 2 / 2 / 2) 1 in
    let high = bit_and_halve (x / 2 / 2) 3 in
    omega (arith, out, top, high, bit_and_halve (x / 2) 7, bit_and_halve x 15)

-- a & 0xff
pub bit_and_byte : (x : ℕ) → bit_and x 0xff ≡ x % 2 ^ 8
bit_and_byte x =
    let out = bit_and_nibble (x / 2 / 2 / 2 / 2) in
    let top = bit_and_halve (x / 2 / 2 / 2) 31 in
    let high = bit_and_halve (x / 2 / 2) 63 in
    omega (arith, out, top, high, bit_and_halve (x / 2) 127, bit_and_halve x 255)
