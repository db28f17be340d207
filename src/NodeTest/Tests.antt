-- ===== src/NodeTest/Tests.antt =====
-- The frame loop of src/node-test/src/node.c on concrete frames.
use dpdk_perf.Common.{◌≡◌, refl, true, false, List, [], ◌∷◌, length}
use dpdk_perf.NodeTest.{Buffer, aaa_qs_inline}
use dpdk_perf.NodeTest.Unrolled.{traces_of, aaa_qs_inline_lem}

abbrev six : List Buffer
six =
    record { is_traced = true; sw_if_index = 1 }
    ∷ record { is_traced = false; sw_if_index = 2 }
    ∷ record { is_traced = true; sw_if_index = 3 }
    ∷ record { is_traced = true; sw_if_index = 4 }
    ∷ record { is_traced = false; sw_if_index = 5 }
    ∷ record { is_traced = true; sw_if_index = 6 }
    ∷ []

four_traces : length (aaa_qs_inline true six).0.traces ≡ 4
unfolding aaa_qs_inline
four_traces = refl

aaa_qs_inline_lem_example :
    aaa_qs_inline true six
    ≡ (record { nexts = 0 ∷ 0 ∷ 0 ∷ 0 ∷ 0 ∷ 0 ∷ []; traces = traces_of true six }, 6)
aaa_qs_inline_lem_example = aaa_qs_inline_lem true six
