-- ===== src/NodeTest/Unrolled.antt =====
-- The unrolled loop of src/node-test/src/node.c against one pass over the buffers.
use mathlib.Core.List.{append_assoc, append-nil}
use dpdk_perf.Common.{
  ℕ, ◌≡◌, refl, ap, ◌∙◌, Bool, true, false, List, [], ◌∷◌, ◌++◌, if◌then◌else◌, length, replicate,
  Bool-cases, inl, inr,
}
use dpdk_perf.NodeTest.{Buffer, Trace, Frame, add_trace, one_by_one, by_four, aaa_qs_inline}

-- The traces of the buffers that are traced, in order.
abbrev pub traced : List Buffer → List Trace
traced [] = []
traced (b ∷ bs) =
    if b.is_traced
    then record { next_index = 0; sw_if_index = b.sw_if_index } ∷ traced bs
    else traced bs

abbrev pub traces_of : Bool → List Buffer → List Trace
traces_of is_trace bs = if is_trace then traced bs else []

four :
    (l : List ℕ)
    → l ++ (0 ∷ 0 ∷ 0 ∷ 0 ∷ []) ≡ (((l ++ (0 ∷ [])) ++ (0 ∷ [])) ++ (0 ∷ [])) ++ (0 ∷ [])
four l = simp append_assoc

by_four-one_by_one :
    (is_trace : Bool) (bs : List Buffer) (f : Frame)
    → by_four is_trace bs f ≡ one_by_one is_trace bs f
unfolding by_four one_by_one
by_four-one_by_one true (b0 ∷ b1 ∷ b2 ∷ b3 ∷ bs) f =
    by_four-one_by_one true bs _ ∙ rw (four f.nexts)
by_four-one_by_one false (b0 ∷ b1 ∷ b2 ∷ b3 ∷ bs) f =
    by_four-one_by_one false bs _ ∙ rw (four f.nexts)
by_four-one_by_one true [] f = refl
by_four-one_by_one false [] f = refl
by_four-one_by_one true (b0 ∷ []) f = refl
by_four-one_by_one false (b0 ∷ []) f = refl
by_four-one_by_one true (b0 ∷ b1 ∷ []) f = refl
by_four-one_by_one false (b0 ∷ b1 ∷ []) f = refl
by_four-one_by_one true (b0 ∷ b1 ∷ b2 ∷ []) f = refl
by_four-one_by_one false (b0 ∷ b1 ∷ b2 ∷ []) f = refl

add_trace-traced :
    (b : Buffer) (bs : List Buffer) (ts : List Trace)
    → add_trace b 0 ts ++ traced bs ≡ ts ++ traced (b ∷ bs)
unfolding add_trace
add_trace-traced b bs ts = elim (Bool-cases b.is_traced) [
  | inl e ↦ rw e (append_assoc ts _ (traced bs))
  | inr e ↦ rw e
]

one_by_one_lem :
    (is_trace : Bool) (bs : List Buffer) (f : Frame)
    → one_by_one is_trace bs f ≡ record {
      nexts = f.nexts ++ replicate (length bs) 0;
      traces = f.traces ++ traces_of is_trace bs;
    }
unfolding one_by_one
one_by_one_lem true [] f = rw (append-nil f.nexts, append-nil f.traces)
one_by_one_lem false [] f = rw (append-nil f.nexts, append-nil f.traces)
one_by_one_lem true (b ∷ bs) f =
    one_by_one_lem true bs _
    ∙ rw (append_assoc f.nexts (0 ∷ []) (replicate (length bs) 0), add_trace-traced b bs f.traces)
one_by_one_lem false (b ∷ bs) f =
    one_by_one_lem false bs _ ∙ rw (append_assoc f.nexts (0 ∷ []) (replicate (length bs) 0))

-- Every buffer of the frame is sent to next index 0, each traced buffer has exactly one trace, in
-- the frame's order and only if tracing is on, and the count returned is that of the frame,
-- however the buffers fall into rounds of four.
pub aaa_qs_inline_lem :
    (is_trace : Bool) (bufs : List Buffer)
    → aaa_qs_inline is_trace bufs ≡ (
      record { nexts = replicate (length bufs) 0; traces = traces_of is_trace bufs },
      length bufs,
    )
unfolding aaa_qs_inline
aaa_qs_inline_lem is_trace bufs =
    ap (λ f. (f, length bufs)) (by_four-one_by_one is_trace bufs _ ∙ one_by_one_lem is_trace bufs _)
