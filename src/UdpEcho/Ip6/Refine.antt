-- ===== src/UdpEcho/Ip6/Refine.antt =====
-- The reader in the array gives what the reader on lists gives.
use mathlib.Core.Option
use mathlib.Core.List.{append-nil}
use native.Mathlib.Numerals.{add-one}
use dpdk_perf.Common.{
  ℕ, suc, ◌+◌, ◌-◌, ◌%◌, ◌^◌, ◌≤◌, ◌<◌, ◌≡◌, refl, ap, ◌⊎◌, inl, inr, List, [], ◌∷◌, ◌++◌, map,
  Option, none, some, arith, ltb, ◌&&◌, length, take, drop, set, replicate, length-drop,
  length-take, take-append-drop, drop_all, Bool-cases, ltb→lt,
}
use dpdk_perf.UdpEcho.Ip6.Expand.{expand-append}
use dpdk_perf.UdpEcho.Ip6.Bounds.{IsBounded, start-IsBounded, scan-IsBounded}
use dpdk_perf.UdpEcho.Ip6.{
  flush_stage, store_quad, Scan, Lexeme, hex, colon, other, lex, accept, step, scan, finish, result,
  expand, start, unformat_ip6_address, n_quads,
}
use dpdk_perf.UdpEcho.Ip6.Reader.{
  Reading, read, read_step, read_all, complete, read_end, empty, read_address, end_quad,
}

-- The array state that a reading stands for: what was not written is still junk.
abbrev in_array : List ℕ → Reading → Scan
in_array junk r = record {
  hex_quads = r.quads ++ drop (length r.quads) junk;
  n_hex_quads = length r.quads;
  hex_quad = r.hex_quad;
  n_hex_digits = r.n_hex_digits;
  n_colon = r.n_colon;
  double_colon_index = r.split;
}

length_snoc : (vs : List ℕ) (v : ℕ) → length (vs ++ (v ∷ [])) ≡ suc (length vs)
length_snoc [] v = refl
length_snoc (x ∷ vs) v = ap suc (length_snoc vs v)

set_next :
    (vs junk : List ℕ) (v : ℕ)
    → length vs < length junk
    → set (vs ++ drop (length vs) junk) (length vs) v
      ≡ (vs ++ (v ∷ [])) ++ drop (length (vs ++ (v ∷ []))) junk
set_next [] [] v h = absurd (omega arith)
set_next [] (j ∷ js) v h = refl
set_next (x ∷ vs) [] v h = absurd (omega arith)
set_next (x ∷ vs) (j ∷ js) v h = ap (◌∷◌ x) (set_next vs js v (omega arith))

store-in_array :
    (junk : List ℕ) (r : Reading)
    → length r.quads < length junk
    → store_quad (in_array junk r)
      ≡ in_array junk (record r { quads = r.quads ++ (r.hex_quad % 2 ^ 16 ∷ []) })
store-in_array junk r h =
    let v : ℕ = r.hex_quad % 2 ^ 16 in
    rw (set_next r.quads junk v h, add-one (length r.quads), length_snoc r.quads v)

flush-end_quad :
    (junk : List ℕ) (r : Reading)
    → length r.quads < length junk
    → flush_stage (in_array junk r) ≡ in_array junk (end_quad r)
flush-end_quad junk r h = elim (Bool-cases (ltb 0 r.n_colon && ltb 0 r.n_hex_digits)) [
  | inl e ↦ rw e (
      ap {A = Scan} {B = Scan} (λ s. record s { hex_quad = 0; n_hex_digits = 0 })
        (store-in_array junk r h))
  | inr e ↦ rw e
]

accept-read :
    (junk : List ℕ) (d : ℕ) (r : Reading)
    → length junk ≡ n_quads
    → accept d (in_array junk r) ≡ Option.map (in_array junk) (read d r)
unfolding accept read
accept-read junk d r e =
    ground (arith, flush-end_quad junk r, flush-end_quad junk (record r { split = length r.quads }))

abbrev with_rest : List ℕ → Reading × List ℕ → Scan × List ℕ
with_rest junk (r, rest) = (in_array junk r, rest)

step-read_step :
    (junk : List ℕ) (x : Lexeme) (r : Reading)
    → length junk ≡ n_quads
    → step x (in_array junk r) ≡ Option.map (Option.map (in_array junk)) (read_step x r)
unfolding step read_step
step-read_step junk (hex d) r e = ground (arith, accept-read junk d r e)
step-read_step junk colon r e =
    ground (arith, accept-read junk 16 (record r { n_colon = r.n_colon + 1 }) e)
step-read_step junk other r e = refl

-- The split is among the quads.
abbrev IsSplit : Reading → Type 0
IsSplit r = (r.split ≡ n_quads) ⊎ (r.split ≤ length r.quads)

scan-read_all :
    (junk cs : List ℕ) (r : Reading)
    → length junk ≡ n_quads
    → scan cs (in_array junk r) ≡ Option.map (with_rest junk) (read_all cs r)
unfolding scan read_all
scan-read_all junk [] r e = refl
scan-read_all junk (c ∷ cs) r e =
    go (read_step (lex c r.n_colon) r) refl (λ r'. scan-read_all junk cs r' e)
  where
    go :
        (o : Option (Option Reading))
        → read_step (lex c r.n_colon) r ≡ o
        → ((r' : Reading)
            → scan cs (in_array junk r') ≡ Option.map (with_rest junk) (read_all cs r'))
        → scan (c ∷ cs) (in_array junk r) ≡ Option.map (with_rest junk) (read_all (c ∷ cs) r)
    go none q more = rw (scan, step-read_step junk (lex c r.n_colon) r e, read_all, q)
    go (some none) q more = rw (scan, step-read_step junk (lex c r.n_colon) r e, read_all, q)
    go (some (some r')) q more =
        rw (scan, step-read_step junk (lex c r.n_colon) r e, read_all, q) (more r')

expand_split :
    (d : ℕ) (vs js : List ℕ)
    → d ≤ length vs
    → length vs + length js ≡ n_quads
    → expand d (length vs) (vs ++ js)
      ≡ take d vs ++ (replicate (n_quads - length vs) 0 ++ drop d vs)
expand_split d vs js h e =
    let l : length (take d vs) ≡ d = omega (arith, length-take d vs) in
    let n : length (take d vs) + length (drop d vs) ≡ length vs =
      omega (arith, length-take d vs, length-drop d vs) in
    let gap : length js ≡ n_quads - length vs = omega arith in
    rw (take-append-drop d vs, n, l, gap) at
      (expand-append (take d vs) (drop d vs) js (omega arith))

result-complete :
    (host_to_net : ℕ → ℕ) (junk : List ℕ) (r : Reading)
    → length junk ≡ n_quads
    → length r.quads ≤ n_quads
    → IsSplit r
    → result host_to_net (in_array junk r) ≡ Option.map (map host_to_net) (complete r.split r.quads)
unfolding result complete
result-complete host_to_net junk r e l p = ground (
  arith,
  expand_split r.split r.quads (drop (length r.quads) junk),
  length-drop (length r.quads) junk,
  drop_all (length r.quads) junk,
  append-nil r.quads,
)

finish-read_end :
    (host_to_net : ℕ → ℕ) (junk : List ℕ) (r : Reading)
    → length junk ≡ n_quads
    → IsBounded (in_array junk r)
    → finish host_to_net (in_array junk r) ≡ Option.map (map host_to_net) (read_end r)
unfolding finish read_end
finish-read_end host_to_net junk r e v = elim (Bool-cases (ltb 0 r.n_hex_digits)) [
  | inl pending ↦
      let r' : Reading = record r { quads = r.quads ++ (r.hex_quad % 2 ^ 16 ∷ []) } in
      let n : length r'.quads ≡ suc (length r.quads) = length_snoc r.quads _ in
      let room : length r.quads < n_quads = v.pending (ltb→lt _ _ pending) in
      rw (pending, finish, read_end, store-in_array junk r (omega arith))
        (result-complete host_to_net junk r' e (omega arith) (ground (arith, v.place)))
  | inr whole ↦ rw (whole, finish, read_end) (result-complete host_to_net junk r e v.quads v.place)
]

-- The reader in the array is the reader on lists: for every input it accepts the same texts, leaves
-- the same rest and gives the same words, whatever the array of eight quads held first.
pub unformat-read_address :
    (host_to_net : ℕ → ℕ) (junk input : List ℕ)
    → length junk ≡ n_quads
    → unformat_ip6_address host_to_net junk input ≡ read_address host_to_net input
unfolding unformat_ip6_address read_address
unformat-read_address host_to_net junk input e = go (read_all input empty) refl
  where
    go :
        (o : Option (Reading × List ℕ))
        → read_all input empty ≡ o
        → unformat_ip6_address host_to_net junk input ≡ read_address host_to_net input
    go none q = ground (arith, q, scan-read_all junk input empty e)
    go (some (r, rest)) q =
        let ends : scan input (start junk) ≡ some (in_array junk r, rest) =
          ground (arith, q, scan-read_all junk input empty e) in
        let v = scan-IsBounded input rest (start junk) _ (start-IsBounded junk e) ends in
        ground (arith, q, ends, finish-read_end host_to_net junk r e v)
