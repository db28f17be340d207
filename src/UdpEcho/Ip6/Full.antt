-- ===== src/UdpEcho/Ip6/Full.antt =====
-- Reading back the text of eight groups.
use mathlib.Core.List.{append_assoc, append-nil}
use dpdk_perf.Common.{
  ℕ, ◌+◌, ◌%◌, ◌^◌, ◌≤◌, ◌≡◌, refl, ap, ◌∙◌, List, [], ◌∷◌, ◌++◌, map, some, arith, lt→ltb,
  drop_all, length, All, drop, set, ltb, set-append, length-append, true,
}
use dpdk_perf.UdpEcho.Ip6.Groups.{
  Group, IsGroup, chars, quad, quad-lt, at, snoc, scan_group, scan_colon,
}
use dpdk_perf.UdpEcho.Ip6.{
  Scan, other, lex, step, scan, finish, result, unformat_ip6_address, n_quads,
}

abbrev pub quads : List Group → List ℕ
quads gs = map quad gs

-- The loop ends before `rest`: it is empty, or its first character is taken by no test.
abbrev pub Stops : ℕ → List ℕ → Type 0
Stops n_colon [] = Unit {0}
Stops n_colon (c ∷ cs) = lex c n_colon ≡ other

-- g:...:h
abbrev pub sep_text : Group → List Group → List ℕ
sep_text g [] = chars g
sep_text g (h ∷ hs) = chars g ++ (b':' ∷ sep_text h hs)

pub scan_stop : (rest : List ℕ) (s : Scan) → Stops s.n_colon rest → scan rest s ≡ some (s, rest)
unfolding scan step
scan_stop [] s h = refl
scan_stop (c ∷ cs) s h = rw (scan, h)

-- Where the loop stands after the groups gs: the last one is pending, and stored it completes them.
pub record Pending (vs js : List ℕ) (dci : ℕ) (gs : List Group) (t : Scan) : Type 0 where
  pub digits : ltb 0 t.n_hex_digits ≡ true
  pub place : t.double_colon_index ≡ dci
  pub stored :
      set t.hex_quads t.n_hex_quads (t.hex_quad % 2 ^ 16) ≡ (vs ++ quads gs) ++ drop (length gs) js
  pub count : t.n_hex_quads + 1 ≡ length vs + length gs

abbrev pub Reads : List ℕ → List ℕ → ℕ → ℕ → List Group → List ℕ → List ℕ → Type 0
Reads vs js c dci gs text rest =
    (t : Scan) × (scan text (at vs js 0 0 c dci) ≡ some (t, rest)) × Pending vs js dci gs t

pub read_groups :
    (g : Group) (gs : List Group) (vs js rest : List ℕ) (c dci : ℕ)
    → All IsGroup (g ∷ gs)
    → length vs + length js ≡ n_quads
    → length (g ∷ gs) ≤ length js
    → Stops 0 rest
    → Reads vs js c dci (g ∷ gs) (sep_text g gs ++ rest) rest
read_groups g gs vs [] rest c dci a e l s = absurd (omega arith)
read_groups g [] vs (j ∷ js) rest c dci a e l s = (
  at vs (j ∷ js) (quad g) (length g) 0 dci,
  scan_group g rest vs (j ∷ js) c dci a.0 (omega arith) ∙ scan_stop rest _ s,
  record {
    digits = lt→ltb 0 (length g) a.0.1;
    place = refl;
    stored = ground (
      arith,
      quad-lt g a.0,
      set-append vs j js (quad g % 2 ^ 16),
      append_assoc vs (quad g ∷ []) js,
    );
    count = omega arith;
  },
)
read_groups g (h ∷ hs) vs (j ∷ js) rest c dci a e l s =
    let more =
      read_groups h hs (snoc vs (quad g)) js rest 1 dci a.1
        (omega (arith, length-append vs (quad g ∷ []))) (omega arith) s in
    (
      more.0,
      ap (λ text. scan text (at vs (j ∷ js) 0 0 c dci)) (append_assoc (chars g) _ rest)
          ∙ scan_group g (b':' ∷ (sep_text h hs ++ rest)) vs (j ∷ js) c dci a.0 (omega arith)
          ∙ scan_colon (sep_text h hs ++ rest) vs js j (quad g) (length g) dci (omega arith)
              (quad-lt g a.0) a.0.1
          ∙ more.1,
      record {
        digits = more.2.digits;
        place = more.2.place;
        stored =
            more.2.stored
            ∙ ap (λ l. l ++ drop (length (h ∷ hs)) js)
                (append_assoc vs (quad g ∷ []) (quads (h ∷ hs)));
        count = omega (arith, more.2.count, length-append vs (quad g ∷ []));
      },
    )

finish_full :
    (host_to_net : ℕ → ℕ) (junk : List ℕ) (gs : List Group) (t : Scan)
    → length junk ≡ n_quads
    → length gs ≡ n_quads
    → Pending [] junk n_quads gs t
    → finish host_to_net t ≡ some (map host_to_net (quads gs))
unfolding finish result
finish_full host_to_net junk gs t e l p = ground (
  arith,
  p.digits,
  p.place,
  p.count,
  p.stored,
  drop_all (length gs) junk (omega arith),
  append-nil (quads gs),
)

-- The text of eight groups of one to four hexadecimal digits is read as their quads. The rest of
-- the input is left in place if its first character does not go on with the address; the array of
-- eight quads may hold anything before.
pub unformat_full :
    (host_to_net : ℕ → ℕ) (junk : List ℕ) (g : Group) (gs : List Group) (rest : List ℕ)
    → length junk ≡ n_quads
    → All IsGroup (g ∷ gs)
    → length (g ∷ gs) ≡ n_quads
    → Stops 0 rest
    → unformat_ip6_address host_to_net junk (sep_text g gs ++ rest)
      ≡ some (map host_to_net (quads (g ∷ gs)), rest)
unfolding unformat_ip6_address
unformat_full host_to_net junk g gs rest e a l s =
    let (t, reads, pending) =
      read_groups g gs [] junk rest 0 n_quads a (omega arith) (omega arith) s in
    ground (arith, reads, finish_full host_to_net junk (g ∷ gs) t e l pending)
