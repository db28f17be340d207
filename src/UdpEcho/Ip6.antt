-- ===== src/UdpEcho/Ip6.antt =====
-- The IPv6 address reader of src/udp-echo/main.c (unformat_ip6_address). The input is the list of
-- the characters that are left; `none` is the early `return 0`. The array hex_quads starts with
-- whatever the stack holds, so its first contents are an argument. The counters stay below 9 (see
-- Ip6/Bounds), so only the shift of hex_quad, a 64-bit word, shows its wrap-around.
pub mod Expand
pub mod Bounds
pub mod Reader
pub mod Refine
pub mod Groups
pub mod Full
pub mod Compressed
mod Tests
use dpdk_perf.Common.{
  ℕ, zero, suc, ◌+◌, ◌-◌, ◌*◌, ◌%◌, ◌^◌, Bool, true, false, ◌&&◌, Option, none, some, List, [], ◌∷◌,
  map, bit_or, ltb, leb, ◌==◌, if◌then◌else◌, ◌>>=◌, get_or, set,
}

-- ARRAY_LEN(hex_quads)
abbrev pub n_quads : ℕ
n_quads = 8

pub record Scan : Type 0 where
  pub hex_quads : List ℕ
  pub n_hex_quads : ℕ
  pub hex_quad : ℕ
  pub n_hex_digits : ℕ
  pub n_colon : ℕ
  pub double_colon_index : ℕ

-- The classes of the if-chain at the top of the loop.
pub data Lexeme : Type 0 where
  hex : ℕ → Lexeme
  colon other : Lexeme

unfoldable pub lex : ℕ → ℕ → Lexeme
lex c n_colon =
    if leb b'0' c && leb c b'9'
    then hex (c - b'0')
    else if leb b'a' c && leb c b'f'
    then hex (c + 10 - b'a')
    else if leb b'A' c && leb c b'F'
    then hex (c + 10 - b'A')
    else if c == b':' && ltb n_colon 2
    then colon
    else other

-- Too many hex quads.
abbrev check_quads : Scan → Option Scan
check_quads s = if leb n_quads s.n_hex_quads then none else some s

abbrev digit_stage : ℕ → Scan → Option Scan
digit_stage hex_digit s =
    if ltb hex_digit 16
    then if leb 4 s.n_hex_digits
      then none
      else some (record s {
        hex_quad = bit_or (s.hex_quad * 2 ^ 4 % 2 ^ 64) hex_digit;
        n_colon = 0;
        n_hex_digits = s.n_hex_digits + 1;
      })
    else some s

-- Saves the position of "::", of which there may be one.
abbrev colons_stage : Scan → Option Scan
colons_stage s =
    if s.n_colon == 2
    then if ltb s.double_colon_index n_quads
      then none
      else some (record s { double_colon_index = s.n_hex_quads })
    else some s

-- hex_quads[n_hex_quads++] = hex_quad, a 16-bit element.
abbrev store_quad : Scan → Scan
store_quad s = record s {
  hex_quads = set s.hex_quads s.n_hex_quads (s.hex_quad % 2 ^ 16);
  n_hex_quads = s.n_hex_quads + 1;
}

abbrev flush_stage : Scan → Scan
flush_stage s =
    if ltb 0 s.n_colon && ltb 0 s.n_hex_digits
    then record (store_quad s) { hex_quad = 0; n_hex_digits = 0 }
    else s

-- The body of the loop once the character is read; 16 stands for no digit.
unfoldable pub accept : ℕ → Scan → Option Scan
accept hex_digit s = do
  s ← check_quads s
  s ← digit_stage hex_digit s
  s ← colons_stage s
  some (flush_stage s)

unfoldable pub step : Lexeme → Scan → Option (Option Scan)
unfolding accept
step (hex d) s = do s' ← accept d s; some (some s')
step colon s = do s' ← accept 16 (record s { n_colon = s.n_colon + 1 }); some (some s')
step other s = some none

-- The while loop: `some (s, rest)` is its end by break or at the end of the input.
unfoldable pub scan : List ℕ → Scan → Option (Scan × List ℕ)
scan [] s = some (s, [])
scan (c ∷ cs) s = elim (step (lex c s.n_colon) s) [
  | none ↦ none
  | some none ↦ some (s, c ∷ cs)
  | some (some s') ↦ scan cs s'
]

-- for (i = n_hex_quads - 1; i >= double_colon_index; i--): k rounds are left, at i = d + k - 1.
unfoldable pub shift_up : ℕ → ℕ → ℕ → List ℕ → List ℕ
shift_up zero d gap quads = quads
shift_up (suc k) d gap quads = shift_up k d gap (set quads (gap + (d + k)) (get_or quads (d + k) 0))

-- for (i = 0; i < gap; i++): k rounds are left, from i = i.
unfoldable pub fill_zero : ℕ → ℕ → ℕ → List ℕ → List ℕ
fill_zero zero i d quads = quads
fill_zero (suc k) i d quads = fill_zero k (i + 1) d (set quads (d + i) 0)

unfoldable pub expand : ℕ → ℕ → List ℕ → List ℕ
unfolding shift_up fill_zero
expand d n quads = let gap = n_quads - n in fill_zero gap 0 d (shift_up (n - d) d gap quads)

-- From the expansion of "::" on; `host_to_net` is clib_host_to_net_u16.
unfoldable pub result : (ℕ → ℕ) → Scan → Option (List ℕ)
unfolding expand
result host_to_net s =
    let compressed = ltb s.double_colon_index n_quads in
    let quads =
      if compressed then expand s.double_colon_index s.n_hex_quads s.hex_quads else s.hex_quads in
    let n = if compressed then n_quads else s.n_hex_quads in
    if ltb n n_quads then none else some (map host_to_net quads)

-- What follows the loop.
unfoldable pub finish : (ℕ → ℕ) → Scan → Option (List ℕ)
finish host_to_net s = result host_to_net (if ltb 0 s.n_hex_digits then store_quad s else s)

abbrev pub start : List ℕ → Scan
start junk = record {
  hex_quads = junk;
  n_hex_quads = 0;
  hex_quad = 0;
  n_hex_digits = 0;
  n_colon = 0;
  double_colon_index = n_quads;
}

-- The address, eight 16-bit words in network order, and the input left over.
unfoldable pub unformat_ip6_address : (ℕ → ℕ) → List ℕ → List ℕ → Option (List ℕ × List ℕ)
unfolding scan lex step finish result
unformat_ip6_address host_to_net junk input = do
  (s, rest) ← scan input (start junk)
  quads ← finish host_to_net s
  some (quads, rest)
