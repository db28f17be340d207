-- ===== src/UdpEcho/Ip6/Reader.antt =====
-- The address reader without its array: quads are appended to a list and "::" is filled by list
-- operations.
use dpdk_perf.Common.{
  ℕ, ◌+◌, ◌-◌, ◌*◌, ◌%◌, ◌^◌, List, [], ◌∷◌, ◌++◌, map, Option, none, some, ltb, leb, ◌==◌, ◌&&◌,
  if◌then◌else◌, ◌>>=◌, length, take, drop, replicate, bit_or,
}
use dpdk_perf.UdpEcho.Ip6.{Lexeme, hex, colon, other, lex, n_quads}

pub record Reading : Type 0 where
  pub quads : List ℕ
  pub hex_quad : ℕ
  pub n_hex_digits : ℕ
  pub n_colon : ℕ
  pub split : ℕ

abbrev pub add_digit : ℕ → Reading → Option Reading
add_digit d r =
    if ltb d 16
    then if leb 4 r.n_hex_digits
      then none
      else some (record r {
        hex_quad = bit_or (r.hex_quad * 2 ^ 4 % 2 ^ 64) d;
        n_colon = 0;
        n_hex_digits = r.n_hex_digits + 1;
      })
    else some r

abbrev pub mark_split : Reading → Option Reading
mark_split r =
    if r.n_colon == 2
    then if ltb r.split n_quads then none else some (record r { split = length r.quads })
    else some r

abbrev pub end_quad : Reading → Reading
end_quad r =
    if ltb 0 r.n_colon && ltb 0 r.n_hex_digits
    then record r { quads = r.quads ++ (r.hex_quad % 2 ^ 16 ∷ []); hex_quad = 0; n_hex_digits = 0 }
    else r

unfoldable pub read : ℕ → Reading → Option Reading
read d r =
    if leb n_quads (length r.quads)
    then none
    else do r ← add_digit d r; r ← mark_split r; some (end_quad r)

unfoldable pub read_step : Lexeme → Reading → Option (Option Reading)
unfolding read
read_step (hex d) r = do r' ← read d r; some (some r')
read_step colon r = do r' ← read 16 (record r { n_colon = r.n_colon + 1 }); some (some r')
read_step other r = some none

unfoldable pub read_all : List ℕ → Reading → Option (Reading × List ℕ)
read_all [] r = some (r, [])
read_all (c ∷ cs) r = elim (read_step (lex c r.n_colon) r) [
  | none ↦ none
  | some none ↦ some (r, c ∷ cs)
  | some (some r') ↦ read_all cs r'
]

-- Eight quads: those read, round as many zero quads as are missing at the split.
unfoldable pub complete : ℕ → List ℕ → Option (List ℕ)
complete split quads =
    if ltb split n_quads
    then some (take split quads ++ (replicate (n_quads - length quads) 0 ++ drop split quads))
    else if ltb (length quads) n_quads
    then none
    else some quads

unfoldable pub read_end : Reading → Option (List ℕ)
read_end r =
    complete r.split
      (if ltb 0 r.n_hex_digits then r.quads ++ (r.hex_quad % 2 ^ 16 ∷ []) else r.quads)

abbrev pub empty : Reading
empty = record { quads = []; hex_quad = 0; n_hex_digits = 0; n_colon = 0; split = n_quads }

-- The reader as a function of the input alone.
unfoldable pub read_address : (ℕ → ℕ) → List ℕ → Option (List ℕ × List ℕ)
unfolding read_all lex read_step read_end complete
read_address host_to_net input = do
  (r, rest) ← read_all input empty
  quads ← read_end r
  some (map host_to_net quads, rest)
