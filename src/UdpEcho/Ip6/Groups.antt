-- ===== src/UdpEcho/Ip6/Groups.antt =====
-- The text of an address, group by group, and what the loop does with each part of it.
use mathlib.Core.List.{append_assoc}
use dpdk_perf.Common.{
  ℕ, ◌+◌, ◌-◌, ◌*◌, ◌^◌, ◌≤◌, ◌<◌, ◌≡◌, ap, ◌∙◌, Bool, List, [], ◌∷◌, ◌++◌, map, some, arith, ltb,
  if◌then◌else◌, length, All, set-append, length-append,
}
use dpdk_perf.Common.Bits.{shift-bit_or}
use dpdk_perf.UdpEcho.Ip6.{Scan, hex, lex, accept, step, scan, n_quads}

-- A hexadecimal digit in either case.
pub record Digit : Type 0 where
  pub value : ℕ
  pub upper : Bool

abbrev pub IsDigit : Digit → Type 0
IsDigit d = d.value < 16

pub digit_char : Digit → ℕ
digit_char d =
    if ltb d.value 10 then d.value + b'0' else (if d.upper then b'A' else b'a') + (d.value - 10)

pub lex-digit_char :
    (d : Digit) (n_colon : ℕ) → IsDigit d → lex (digit_char d) n_colon ≡ hex d.value
unfolding lex digit_char
lex-digit_char d n_colon h = ground arith

-- A group: its digits, first to last.
abbrev pub Group : Type 0
Group = List Digit

abbrev pub IsGroup : Group → Type 0
IsGroup g = All IsDigit g × (0 < length g) × (length g ≤ 4)

abbrev pub chars : Group → List ℕ
chars g = map digit_char g

abbrev pub value_from : ℕ → Group → ℕ
value_from v [] = v
value_from v (d ∷ g) = value_from (v * 16 + d.value) g

-- The number that a group stands for.
abbrev pub quad : Group → ℕ
quad g = value_from 0 g

-- A state of the loop that has stored vs and not yet written js.
abbrev pub at : List ℕ → List ℕ → ℕ → ℕ → ℕ → ℕ → Scan
at vs js v k c dci = record {
  hex_quads = vs ++ js;
  n_hex_quads = length vs;
  hex_quad = v;
  n_hex_digits = k;
  n_colon = c;
  double_colon_index = dci;
}

accept_digit :
    (d : ℕ) (vs js : List ℕ) (v k c dci : ℕ)
    → d < 16
    → length vs < n_quads
    → k < 4
    → v < 2 ^ 60
    → accept d (at vs js v k c dci) ≡ some (at vs js (v * 16 + d) (k + 1) 0 dci)
unfolding accept
accept_digit d vs js v k c dci hd hv hk h = ground (arith, shift-bit_or 4 v d hd)

le-value_from : (v : ℕ) (g : Group) → v ≤ value_from v g
le-value_from v [] = omega arith
le-value_from v (d ∷ g) = omega (arith, le-value_from (v * 16 + d.value) g)

-- Four digits fit the 16-bit element.
pub quad-lt : (g : Group) → IsGroup g → quad g < 2 ^ 16
quad-lt [] (a, p, l) = omega arith
quad-lt (d ∷ []) (a, p, l) = omega arith
quad-lt (d ∷ e ∷ []) (a, p, l) = omega arith
quad-lt (d ∷ e ∷ f ∷ []) (a, p, l) = omega arith
quad-lt (d ∷ e ∷ f ∷ g ∷ []) (a, p, l) = omega arith
quad-lt (d ∷ e ∷ f ∷ g ∷ h ∷ r) (a, p, l) = absurd (omega arith)

scan_digit :
    (d : Digit) (cs vs js : List ℕ) (v k c dci : ℕ)
    → IsDigit d
    → length vs < n_quads
    → k < 4
    → v < 2 ^ 60
    → scan (digit_char d ∷ cs) (at vs js v k c dci)
      ≡ scan cs (at vs js (v * 16 + d.value) (k + 1) 0 dci)
unfolding scan step
scan_digit d cs vs js v k c dci hd hv hk h =
    rw (scan, lex-digit_char d c hd, accept_digit d.value vs js v k c dci hd hv hk h)

scan_digits :
    (g : Group) (cs vs js : List ℕ) (v k dci : ℕ)
    → All IsDigit g
    → length vs < n_quads
    → k + length g ≤ 4
    → value_from v g < 2 ^ 60
    → scan (chars g ++ cs) (at vs js v k 0 dci)
      ≡ scan cs (at vs js (value_from v g) (k + length g) 0 dci)
scan_digits [] cs vs js v k dci a hv hk h = ap (λ m. scan cs (at vs js v m 0 dci)) (omega arith)
scan_digits (d ∷ g) cs vs js v k dci a hv hk h =
    scan_digit d (chars g ++ cs) vs js v k 0 dci a.0 hv (omega arith)
      (omega (arith, le-value_from v (d ∷ g)))
    ∙ scan_digits g cs vs js (v * 16 + d.value) (k + 1) dci a.1 hv (omega arith) h
    ∙ ap (λ m. scan cs (at vs js (value_from v (d ∷ g)) m 0 dci)) (omega arith)

-- A group is read into hex_quad.
pub scan_group :
    (g : Group) (cs vs js : List ℕ) (c dci : ℕ)
    → IsGroup g
    → length vs < n_quads
    → scan (chars g ++ cs) (at vs js 0 0 c dci) ≡ scan cs (at vs js (quad g) (length g) 0 dci)
scan_group [] cs vs js c dci (a, p, l) hv = absurd (omega arith)
scan_group (d ∷ g) cs vs js c dci h hv =
    scan_digit d (chars g ++ cs) vs js 0 0 c dci h.0.0 hv (omega arith) (omega arith)
    ∙ scan_digits g cs vs js (0 * 16 + d.value) 1 dci h.0.1 hv (omega (arith, h.2))
        (omega (arith, quad-lt (d ∷ g) h))
    ∙ ap (λ m. scan cs (at vs js (quad (d ∷ g)) m 0 dci)) (omega arith)

abbrev pub snoc : List ℕ → ℕ → List ℕ
snoc vs v = vs ++ (v ∷ [])

-- A colon after digits stores their quad.
pub scan_colon :
    (cs vs js : List ℕ) (j v k dci : ℕ)
    → length vs < n_quads
    → v < 2 ^ 16
    → 0 < k
    → scan (b':' ∷ cs) (at vs (j ∷ js) v k 0 dci) ≡ scan cs (at (snoc vs v) js 0 0 1 dci)
unfolding scan lex step
scan_colon cs vs js j v k dci hv h hk =
    ground (arith, set-append vs j js v, append_assoc vs (v ∷ []) js, length-append vs (v ∷ []))

-- A leading colon is counted only.
pub scan_first_colon :
    (cs vs js : List ℕ) (dci : ℕ)
    → length vs < n_quads
    → scan (b':' ∷ cs) (at vs js 0 0 0 dci) ≡ scan cs (at vs js 0 0 1 dci)
unfolding scan lex step
scan_first_colon cs vs js dci hv = ground arith

-- A second colon in a row marks the place of the zero quads.
pub scan_second_colon :
    (cs vs js : List ℕ)
    → length vs < n_quads
    → scan (b':' ∷ cs) (at vs js 0 0 1 n_quads) ≡ scan cs (at vs js 0 0 2 (length vs))
unfolding scan lex step
scan_second_colon cs vs js hv = ground arith
