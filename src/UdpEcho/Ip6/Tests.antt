-- ===== src/UdpEcho/Ip6/Tests.antt =====
-- Runs of the address reader.
use Prim.Native.Char.{code}
use Prim.Native.String.{String}
use dpdk_perf.Common.{
  ℕ, ◌^◌, ◌<◌, ◌≡◌, refl, true, false, List, [], ◌∷◌, ◌++◌, some, none, replicate, arith,
}
use dpdk_perf.UdpEcho.Ip6.Groups.{Group}
use dpdk_perf.UdpEcho.Ip6.Full.{quads, sep_text, unformat_full}
use dpdk_perf.UdpEcho.Ip6.Compressed.{lead_text, tail_text, filled, unformat_compressed}
use dpdk_perf.UdpEcho.Ip6.Bounds.{IsBounded, Visits, scan-Visits, unformat_bounds}
use dpdk_perf.UdpEcho.Ip6.Reader.{read_address}
use dpdk_perf.UdpEcho.Ip6.Refine.{unformat-read_address}
use dpdk_perf.UdpEcho.Ip6.{unformat_ip6_address, lex, start, Scan, scan, step, n_quads}

abbrev codes : String → List ℕ
codes String.[] = []
codes (String.◌∷◌ c s) = code c ∷ codes s

abbrev junk : List ℕ
junk = replicate 8 0xdead

loopback :
    unformat_ip6_address (λ q. q) junk (codes "::1/5000")
    ≡ some (0 ∷ 0 ∷ 0 ∷ 0 ∷ 0 ∷ 0 ∷ 0 ∷ 1 ∷ [], codes "/5000")
unfolding unformat_ip6_address
loopback = refl

compressed :
    unformat_ip6_address (λ q. q) junk (codes "fe80::aB:12")
    ≡ some (0xfe80 ∷ 0 ∷ 0 ∷ 0 ∷ 0 ∷ 0 ∷ 0xab ∷ 0x12 ∷ [], [])
unfolding unformat_ip6_address
compressed = refl

too_few : unformat_ip6_address (λ q. q) junk (codes "1:2:3:4:5:6:7") ≡ none
unfolding unformat_ip6_address
too_few = refl

abbrev one : Group
one = record { value = 1; upper = false } ∷ []

abbrev long : Group
long = record { value = 15; upper = true } ∷ record { value = 0; upper = false } ∷ []

unformat_full_example :
    unformat_ip6_address (λ q. q) junk (sep_text one (replicate 7 long) ++ (b'/' ∷ []))
    ≡ some (quads (one ∷ replicate 7 long), b'/' ∷ [])
unfolding lex
unformat_full_example =
    unformat_full (λ q. q) junk one (replicate 7 long) (b'/' ∷ []) refl (omega arith) refl refl

unformat_compressed_example :
    unformat_ip6_address
      (λ q. q)
      junk
      (lead_text (long ∷ []) ++ (b':' ∷ (tail_text (one ∷ []) ++ [])))
    ≡ some (filled (long ∷ []) (one ∷ []), [])
unformat_compressed_example =
    unformat_compressed (λ q. q) junk (long ∷ []) (one ∷ []) [] refl (omega arith) (omega arith)
      (omega arith) (omega arith) tt

-- The loop behind the characters of "1:fe", with the quad 1 stored and 0xfe pending.
abbrev halfway : Scan
halfway = record {
  hex_quads = 1 ∷ replicate 7 0xdead;
  n_hex_quads = 1;
  hex_quad = 0xfe;
  n_hex_digits = 2;
  n_colon = 0;
  double_colon_index = n_quads;
}

comes_halfway : Visits (codes "1:fe") (start junk) halfway
unfolding scan step lex
comes_halfway = scan-Visits (codes "1:fe") [] (start junk) halfway refl

unformat_bounds_example : IsBounded halfway × (halfway.hex_quad < 2 ^ 16)
unformat_bounds_example = unformat_bounds (codes "1:fe") junk refl comes_halfway

unformat-read_address_example :
    unformat_ip6_address (λ q. q) junk (codes "1::2") ≡ read_address (λ q. q) (codes "1::2")
unformat-read_address_example = unformat-read_address (λ q. q) junk (codes "1::2") refl
