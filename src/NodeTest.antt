-- ===== src/NodeTest.antt =====
-- src/node-test/src/node.c: the frame loop of the l2-perf graph node (aaa_qs_inline), which handles
-- four buffers a round while it has four, and then one by one. A prefetch changes no state. The
-- next indices written and the traces added are kept in order.
pub mod Unrolled
mod Tests
use dpdk_perf.Common.{
  ℕ, zero, suc, ◌+◌, Bool, true, false, ◌&&◌, List, [], ◌∷◌, ◌++◌, if◌then◌else◌, length,
}

-- vlib_buffer_t: VLIB_BUFFER_IS_TRACED in its flags, and its receiving interface.
pub record Buffer : Type 0 where
  pub is_traced : Bool
  pub sw_if_index : ℕ

-- aaa_qs_trace_t
pub record Trace : Type 0 where
  pub next_index : ℕ
  pub sw_if_index : ℕ

pub record Frame : Type 0 where
  pub nexts : List ℕ
  pub traces : List Trace

-- vlib_add_trace for a buffer, if it is traced.
unfoldable pub add_trace : Buffer → ℕ → List Trace → List Trace
add_trace b next traces =
    if b.is_traced
    then traces ++ (record { next_index = next; sw_if_index = b.sw_if_index } ∷ [])
    else traces

-- while (n_left_from > 0)
unfoldable pub one_by_one : Bool → List Buffer → Frame → Frame
unfolding add_trace
one_by_one is_trace [] f = f
one_by_one is_trace (b ∷ bs) f = one_by_one is_trace bs (record {
  nexts = f.nexts ++ (0 ∷ []);
  traces = if is_trace then add_trace b 0 f.traces else f.traces;
})

-- while (n_left_from >= 4), then the loop above.
unfoldable pub by_four : Bool → List Buffer → Frame → Frame
unfolding one_by_one add_trace
by_four is_trace (b0 ∷ b1 ∷ b2 ∷ b3 ∷ bs) f = by_four is_trace bs (record {
  nexts = f.nexts ++ (0 ∷ 0 ∷ 0 ∷ 0 ∷ []);
  traces =
      if is_trace
      then add_trace b3 0 (add_trace b2 0 (add_trace b1 0 (add_trace b0 0 f.traces)))
      else f.traces;
})
by_four is_trace bs f = one_by_one is_trace bs f

-- aaa_qs_inline: the frame, and the number of vectors that it returns.
unfoldable pub aaa_qs_inline : Bool → List Buffer → Frame × ℕ
unfolding by_four
aaa_qs_inline is_trace bufs =
    (by_four is_trace bufs (record { nexts = []; traces = [] }), length bufs)
