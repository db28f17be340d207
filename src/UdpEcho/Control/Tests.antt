-- ===== src/UdpEcho/Control/Tests.antt =====
-- Runs of the API handlers of src/udp-echo/main.c over the table of UdpEcho/Data.
use dpdk_perf.Common.{◌≡◌, refl, false, none, some, List, [], ◌∷◌}
use dpdk_perf.UdpEcho.Data.{table}
use dpdk_perf.UdpEcho.Session.{start, attached}
use dpdk_perf.UdpEcho.Control.{
  ApiMsg, attach_reply, map_segment, unmap_segment, Control, handle_messages,
}
use dpdk_perf.UdpEcho.Control.Segments.{last_say, handle_messages-last_say}

abbrev fresh : Control table (λ n. n)
fresh = record {
  state = start;
  our_event_queue = 0;
  segments_table = λ k. none;
  segments = λ i. false;
}

abbrev messages : List ApiMsg
messages =
    attach_reply (record {
      retval = 0;
      segment_name_length = 4;
      app_event_queue_address = 64;
      segment = some 0;
    })
    ∷ map_segment (record { segment_handle = 9; segment = some 1 })
    ∷ unmap_segment (record { segment_handle = 9; seg_index = 1 })
    ∷ map_segment (record { segment_handle = 9; segment = some 2 })
    ∷ map_segment (record { segment_handle = 8; segment = none })
    ∷ []

attached_after : (handle_messages table (λ n. n) messages fresh).state ≡ attached
unfolding handle_messages
attached_after = refl

-- 9 is mapped, unmapped and mapped again; 8 cannot be mapped.
handle_messages-last_say_example :
    table.get (handle_messages table (λ n. n) messages fresh).segments_table 9
    ≡ last_say table (λ n. n) 9 none messages
handle_messages-last_say_example = handle_messages-last_say table (λ n. n) 9 messages fresh

last_one : last_say table (λ n. n) 9 none messages ≡ some 2
last_one = refl
