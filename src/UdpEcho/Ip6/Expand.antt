-- ===== src/UdpEcho/Ip6/Expand.antt =====
-- The in-place expansion of "::" against its meaning on lists.
use dpdk_perf.Common.{
  ℕ, zero, suc, ◌+◌, ◌-◌, ◌≤◌, ◌≡◌, refl, ◌∙◌, ◌&&◌, List, ◌++◌, arith, ltb, leb, if◌then◌else◌,
  length, get_or, set, replicate, length-set, length-append, length-replicate, get_or-set,
  get_or-append, get_or-replicate, get_or_ext, get_or_beyond,
}
use dpdk_perf.UdpEcho.Ip6.{shift_up, fill_zero, expand, n_quads}

pub length-shift_up : (k d gap : ℕ) (q : List ℕ) → length (shift_up k d gap q) ≡ length q
unfolding shift_up
length-shift_up zero d gap q = refl
length-shift_up (suc k) d gap q =
    length-shift_up k d gap _ ∙ length-set q (gap + (d + k)) (get_or q (d + k) 0)

length-fill_zero : (k i d : ℕ) (q : List ℕ) → length (fill_zero k i d q) ≡ length q
unfolding fill_zero
length-fill_zero zero i d q = refl
length-fill_zero (suc k) i d q = length-fill_zero k (i + 1) d _ ∙ length-set q (d + i) 0

-- One round of the shift, on the values at an index j.
shift_round :
    (k d gap : ℕ) (q : List ℕ) (j a : ℕ)
    → d + suc k + gap ≤ length q
    → let r = set q (gap + (d + k)) (get_or q (d + k) 0) in
      a ≡ (if leb (d + gap) j && ltb j (d + gap + k) then get_or r (j - gap) 0 else get_or r j 0)
      → a ≡ (
          if leb (d + gap) j && ltb j (d + gap + suc k) then get_or q (j - gap) 0 else get_or q j 0)
shift_round k d gap q j a h ih = ground (
  arith,
  get_or-set q (gap + (d + k)) j (get_or q (d + k) 0) 0,
  get_or-set q (gap + (d + k)) (j - gap) (get_or q (d + k) 0) 0,
)

get_or-shift_up :
    (k d gap : ℕ) (q : List ℕ) (j : ℕ)
    → d + k + gap ≤ length q
    → get_or (shift_up k d gap q) j 0
      ≡ (if leb (d + gap) j && ltb j (d + gap + k) then get_or q (j - gap) 0 else get_or q j 0)
unfolding shift_up
get_or-shift_up zero d gap q j h = ground arith
get_or-shift_up (suc k) d gap q j h = shift_round k d gap q j _ h (
    get_or-shift_up k d gap (set q (gap + (d + k)) (get_or q (d + k) 0)) j
      (rw length-set (omega arith)))

get_or-fill_zero :
    (k i d : ℕ) (q : List ℕ) (j : ℕ)
    → d + i + k ≤ length q
    → get_or (fill_zero k i d q) j 0
      ≡ (if leb (d + i) j && ltb j (d + i + k) then 0 else get_or q j 0)
unfolding fill_zero
get_or-fill_zero zero i d q j h = ground arith
get_or-fill_zero (suc k) i d q j h = ground (
  arith,
  get_or-fill_zero k (i + 1) d (set q (d + i) 0) j,
  length-set q (d + i) 0,
  get_or-set q (d + i) j 0 0,
)

-- "::" after the quads l and before the quads r fills the room between them with zero quads; js
-- is the part of the array that the loop has not written.
get_or-expand :
    (l r js : List ℕ) (j : ℕ)
    → length l + length r + length js ≡ n_quads
    → get_or (expand (length l) (length l + length r) ((l ++ r) ++ js)) j 0
      ≡ get_or (l ++ (replicate (length js) 0 ++ r)) j 0
unfolding expand
get_or-expand l r js j h =
    let gap : ℕ = n_quads - (length l + length r) in
    let q = (l ++ r) ++ js in
    let k : ℕ = length l + length r - length l in
    ground (
      arith,
      get_or-fill_zero gap 0 (length l) (shift_up k (length l) gap q) j,
      get_or-shift_up k (length l) gap q j,
      length-shift_up k (length l) gap q,
      length-append (l ++ r) js,
      length-append l r,
      get_or-append (l ++ r) js j 0,
      get_or-append (l ++ r) js (j - gap) 0,
      get_or-append l r j 0,
      get_or-append l r (j - gap) 0,
      get_or_beyond js (j - length (l ++ r)) 0,
      get_or_beyond r (j - length l - length (replicate {A = ℕ} (length js) 0)) 0,
      get_or_beyond r (j - gap - length l) 0,
      get_or-append l (replicate (length js) 0 ++ r) j 0,
      get_or-append (replicate (length js) 0) r (j - length l) 0,
      length-replicate {A = ℕ} (length js) 0,
      get_or-replicate {A = ℕ} (length js) 0 (j - length l),
    )

length-expand : (d n : ℕ) (q : List ℕ) → length (expand d n q) ≡ length q
unfolding expand
length-expand d n q =
    length-fill_zero (n_quads - n) 0 d _ ∙ length-shift_up (n - d) d (n_quads - n) q

pub expand-append :
    (l r js : List ℕ)
    → length l + length r + length js ≡ n_quads
    → expand (length l) (length l + length r) ((l ++ r) ++ js) ≡ l ++ (replicate (length js) 0 ++ r)
expand-append l r js h =
    get_or_ext _ _ 0
      (length-expand (length l) (length l + length r) ((l ++ r) ++ js)
        ∙ omega (
          arith,
          length-append (l ++ r) js,
          length-append l r,
          length-append l (replicate (length js) 0 ++ r),
          length-append (replicate (length js) 0) r,
          length-replicate {A = ℕ} (length js) 0,
        ))
      (λ j. get_or-expand l r js j h)
