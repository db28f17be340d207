-- ===== src/UdpEcho/Ip6/Compressed.antt =====
-- Reading back the text of groups round a "::".
use mathlib.Core.List.{append_assoc, append-nil}
use dpdk_perf.Common.{
  ℕ, zero, suc, ◌+◌, ◌-◌, ◌≤◌, ◌<◌, ◌≡◌, refl, ap, ◌∙◌, List, [], ◌∷◌, ◌++◌, map, some, arith,
  length, All, drop, replicate, length-append, length-map, length-drop,
}
use dpdk_perf.UdpEcho.Ip6.Expand.{expand-append}
use dpdk_perf.UdpEcho.Ip6.Groups.{
  Group, IsGroup, chars, quad, quad-lt, at, snoc, scan_group, scan_colon, scan_first_colon,
  scan_second_colon,
}
use dpdk_perf.UdpEcho.Ip6.{Scan, scan, finish, result, expand, start, unformat_ip6_address, n_quads}
use dpdk_perf.UdpEcho.Ip6.Full.{quads, Stops, sep_text, scan_stop, Pending, read_groups}

-- g:...h:, each group with its colon.
abbrev each_colon : List Group → List ℕ
each_colon [] = []
each_colon (g ∷ gs) = chars g ++ (b':' ∷ each_colon gs)

-- What stands before the second colon of "::", and what after it.
abbrev pub lead_text : List Group → List ℕ
lead_text [] = b':' ∷ []
lead_text (g ∷ gs) = each_colon (g ∷ gs)

abbrev pub tail_text : List Group → List ℕ
tail_text [] = []
tail_text (g ∷ gs) = sep_text g gs

abbrev pub end_colons : List Group → ℕ
end_colons [] = 2
end_colons (g ∷ gs) = 0

read_one :
    (g : Group) (cs vs js : List ℕ) (c dci : ℕ)
    → IsGroup g
    → length vs + length js ≡ n_quads
    → length vs < n_quads
    → scan ((chars g ++ (b':' ∷ cs))) (at vs js 0 0 c dci)
      ≡ scan cs (at (snoc vs (quad g)) (drop 1 js) 0 0 1 dci)
read_one g cs vs [] c dci a e l = absurd (omega arith)
read_one g cs vs (j ∷ js) c dci a e l =
    scan_group g (b':' ∷ cs) vs (j ∷ js) c dci a (omega arith)
    ∙ scan_colon cs vs js j (quad g) (length g) dci (omega arith) (quad-lt g a) a.1

drop_one {ℓ} : {A : Type ℓ} (n : ℕ) (xs : List A) → drop n (drop 1 xs) ≡ drop (suc n) xs
drop_one zero [] = refl
drop_one (suc n) [] = refl
drop_one n (x ∷ xs) = refl

-- The state after one group more, written over all groups read.
at_next :
    (g : Group) (gs : List Group) (vs js : List ℕ) (dci : ℕ)
    → at (snoc vs (quad g) ++ quads gs) (drop (length gs) (drop 1 js)) 0 0 1 dci
      ≡ at (vs ++ quads (g ∷ gs)) (drop (length (g ∷ gs)) js) 0 0 1 dci
at_next g gs vs js dci = rw (append_assoc vs (quad g ∷ []) (quads gs), drop_one (length gs) js)

room :
    (g : Group) (vs js : List ℕ)
    → length vs + length js ≡ n_quads
    → length vs < n_quads
    → length (snoc vs (quad g)) + length (drop 1 js) ≡ n_quads
room g vs js e l = omega (arith, length-append vs (quad g ∷ []), length-drop 1 js)

read_each :
    (gs : List Group) (rest vs js : List ℕ) (dci : ℕ)
    → All IsGroup gs
    → length vs + length js ≡ n_quads
    → length vs + length gs < n_quads
    → scan (each_colon gs ++ rest) (at vs js 0 0 1 dci)
      ≡ scan rest (at (vs ++ quads gs) (drop (length gs) js) 0 0 1 dci)
read_each [] rest vs js dci a e l = rw (append-nil vs)
read_each (g ∷ gs) rest vs js dci a e l =
    ap (λ text. scan text (at vs js 0 0 1 dci)) (append_assoc (chars g) _ rest)
    ∙ read_one g (each_colon gs ++ rest) vs js 1 dci a.0 e (omega arith)
    ∙ read_each gs rest (snoc vs (quad g)) (drop 1 js) dci a.1 (room g vs js e (omega arith))
        (omega (arith, length-append vs (quad g ∷ [])))
    ∙ ap (scan rest) (at_next g gs vs js dci)

read_lead :
    (ls : List Group) (rest junk : List ℕ)
    → All IsGroup ls
    → length junk ≡ n_quads
    → length ls < n_quads
    → scan (lead_text ls ++ rest) (start junk)
      ≡ scan rest (at (quads ls) (drop (length ls) junk) 0 0 1 n_quads)
read_lead [] rest junk a e l = scan_first_colon rest [] junk n_quads (omega arith)
read_lead (g ∷ gs) rest junk a e l =
    ap (λ text. scan text (start junk)) (append_assoc (chars g) _ rest)
    ∙ read_one g (each_colon gs ++ rest) [] junk 0 n_quads a.0 (omega arith) (omega arith)
    ∙ read_each gs rest (quad g ∷ []) (drop 1 junk) n_quads a.1
        (room g [] junk (omega arith) (omega arith)) (omega arith)
    ∙ ap (scan rest) (at_next g gs [] junk n_quads)

-- The quads round a "::".
abbrev pub filled : List Group → List Group → List ℕ
filled ls rs = quads ls ++ (replicate (n_quads - length ls - length rs) 0 ++ quads rs)

expand_between :
    (ls rs : List Group) (js : List ℕ)
    → length ls + length rs + length js ≡ n_quads
    → expand (length (quads ls)) (length ls + length rs) ((quads ls ++ quads rs) ++ js)
      ≡ filled ls rs
expand_between ls rs js e =
    let gap : length js ≡ n_quads - length ls - length rs = omega arith in
    rw (← gap) (
      ap (λ n. expand (length (quads ls)) n ((quads ls ++ quads rs) ++ js))
        (omega (arith, length-map ls quad, length-map rs quad))
      ∙ expand-append (quads ls) (quads rs) js
          (omega (arith, length-map ls quad, length-map rs quad)))

finish_between :
    (host_to_net : ℕ → ℕ) (ls rs : List Group) (js : List ℕ) (t : Scan)
    → length ls < n_quads
    → length ls + length js ≡ n_quads
    → length rs ≤ length js
    → Pending (quads ls) js (length (quads ls)) rs t
    → finish host_to_net t ≡ some (map host_to_net (filled ls rs))
unfolding finish result
finish_between host_to_net ls rs js t l e r p = ground (
  arith,
  p.digits,
  p.place,
  p.count,
  p.stored,
  length-map ls quad,
  expand_between ls rs (drop (length rs) js) (omega (arith, length-drop (length rs) js)),
)

finish_end :
    (host_to_net : ℕ → ℕ) (ls : List Group) (js : List ℕ)
    → length ls < n_quads
    → length ls + length js ≡ n_quads
    → finish host_to_net (at (quads ls) js 0 0 2 (length (quads ls)))
      ≡ some (map host_to_net (filled ls []))
unfolding finish result
finish_end host_to_net ls js l e =
    ground (arith, length-map ls quad, append-nil (quads ls), expand_between ls [] js (omega arith))

-- Up to the second colon of "::".
read_double :
    (ls : List Group) (cs junk : List ℕ)
    → All IsGroup ls
    → length junk ≡ n_quads
    → length ls < n_quads
    → scan (lead_text ls ++ (b':' ∷ cs)) (start junk)
      ≡ scan cs (at (quads ls) (drop (length ls) junk) 0 0 2 (length (quads ls)))
read_double ls cs junk a e l =
    read_lead ls (b':' ∷ cs) junk a e l
    ∙ scan_second_colon cs (quads ls) (drop (length ls) junk) (omega (arith, length-map ls quad))

-- The text of fewer than eight groups, a "::" and further groups, at most eight in all, is read as
-- the quads of the groups with zero quads in the middle, eight altogether. The rest of the input is
-- left in place if its first character does not go on with the address; the array of eight quads
-- may hold anything before.
pub unformat_compressed :
    (host_to_net : ℕ → ℕ) (junk : List ℕ) (ls rs : List Group) (rest : List ℕ)
    → length junk ≡ n_quads
    → All IsGroup ls
    → All IsGroup rs
    → length ls < n_quads
    → length ls + length rs ≤ n_quads
    → Stops (end_colons rs) rest
    → unformat_ip6_address host_to_net junk (lead_text ls ++ (b':' ∷ (tail_text rs ++ rest)))
      ≡ some (map host_to_net (filled ls rs), rest)
unfolding unformat_ip6_address
unformat_compressed host_to_net junk ls [] rest e al ar l r s =
    let js = drop (length ls) junk in
    ground (
      arith,
      read_double ls rest junk al e l,
      scan_stop rest (at (quads ls) js 0 0 2 (length (quads ls))) s,
      finish_end host_to_net ls js l (omega (arith, length-drop (length ls) junk)),
    )
unformat_compressed host_to_net junk ls (g ∷ gs) rest e al ar l r s =
    let js = drop (length ls) junk in
    let fits : length ls + length js ≡ n_quads = omega (arith, length-drop (length ls) junk) in
    let (t, reads, pending) =
      read_groups g gs (quads ls) js rest 2 (length (quads ls)) ar
        (omega (arith, length-map ls quad)) (omega arith) s in
    ground (
      arith,
      read_double ls (sep_text g gs ++ rest) junk al e l,
      reads,
      finish_between host_to_net ls (g ∷ gs) js t l fits (omega arith) pending,
    )
