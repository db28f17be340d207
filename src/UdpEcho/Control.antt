-- ===== src/UdpEcho/Control.antt =====
-- The binary API replies of src/udp-echo/main.c that change its state, and wait_for_state_change.
-- What svm_fifo_segment_attach answers is an argument: the index of the new segment, or none if it
-- fails. `attached` says which indices of segment_main hold a segment.
pub mod Segments
pub mod Wait
mod Tests
use dpdk_perf.Common.{ℕ, Bool, true, false, Option, none, some, List, [], ◌∷◌, ◌==◌, if◌then◌else◌}
use dpdk_perf.Common.Int.{ℤ, pos, negsuc}
use dpdk_perf.UdpEcho.Vpp.{HashOps}
use dpdk_perf.UdpEcho.Session.{
  ConnectionState, start, attached, bound, ready, failed, disconnecting, detached,
}

abbrev pub same_state : ConnectionState → ConnectionState → Bool
same_state start start = true
same_state attached attached = true
same_state bound bound = true
same_state ready ready = true
same_state failed failed = true
same_state disconnecting disconnecting = true
same_state detached detached = true
same_state _ _ = false

-- wait_for_state_change: the states that the loop reads until the time is up, each read once.
unfoldable pub wait_for_state_change : ConnectionState → List ConnectionState → ℤ
wait_for_state_change state [] = negsuc 0
wait_for_state_change state (s ∷ ss) =
    let rest = wait_for_state_change state ss in
    if same_state s state then pos 0 else if same_state s failed then negsuc 0 else rest

pub record AttachReply : Type 0 where
  pub retval : ℕ
  pub segment_name_length : ℕ
  pub app_event_queue_address : ℕ
  pub segment : Option ℕ

pub record MapSegment : Type 0 where
  pub segment_handle : ℕ
  pub segment : Option ℕ

-- `seg_index` is what seg_indexp[0] reads: the code reads it after hash_unset.
pub record UnmapSegment : Type 0 where
  pub segment_handle : ℕ
  pub seg_index : ℕ

-- The messages, by their retval where that is all they hold.
pub data ApiMsg : Type 0 where
  attach_reply : AttachReply → ApiMsg
  detach_reply : ℕ → ApiMsg
  map_segment : MapSegment → ApiMsg
  unmap_segment : UnmapSegment → ApiMsg
  unbind_reply : ℕ → ApiMsg
  bind_reply : ℕ → ApiMsg
  cut_through_add : ApiMsg

module _ (H : HashOps) (net_to_host : ℕ → ℕ) where
  open H use {Hash}

  -- udp_echo_main_t, the fields that these handlers read or write.
  pub record Control : Type 0 where
    pub state : ConnectionState
    pub our_event_queue : ℕ
    pub segments_table : Hash
    pub segments : ℕ → Bool

  -- svm_fifo_segment_attach at an index, and svm_fifo_segment_delete.
  abbrev pub put_segment : ℕ → Bool → Control → Control
  put_segment i here utm = record utm { segments = λ j. if i == j then here else utm.segments j }

  -- vl_api_application_attach_reply_t_handler
  unfoldable pub application_attach_reply : AttachReply → Control → Control
  application_attach_reply mp utm =
      if mp.retval == 0
      then (if mp.segment_name_length == 0 then utm else (elim mp.segment [
        | none ↦ utm
        | some i ↦ record (put_segment i true utm) {
          our_event_queue = mp.app_event_queue_address;
          state = attached;
        }
      ]))
      else record utm { state = failed }

  -- vl_api_map_another_segment_t_handler
  unfoldable pub map_another_segment : MapSegment → Control → Control
  map_another_segment mp utm = elim mp.segment [
    | none ↦ utm
    | some i ↦ record (put_segment i true utm) {
      segments_table = H.set utm.segments_table (net_to_host mp.segment_handle) i;
    }
  ]

  -- vl_api_unmap_segment_t_handler
  unfoldable pub drop_segment : UnmapSegment → Control → Control
  drop_segment mp utm = elim (H.get utm.segments_table (net_to_host mp.segment_handle)) [
    | none ↦ utm
    | some i ↦ record (put_segment mp.seg_index false utm) {
      segments_table = H.unset utm.segments_table (net_to_host mp.segment_handle);
    }
  ]

  -- vl_api_application_detach_reply_t_handler
  abbrev pub application_detach_reply : ℕ → Control → Control
  application_detach_reply retval utm = record utm { state = detached }

  -- vl_api_unbind_uri_reply_t_handler
  abbrev pub unbind_uri_reply : ℕ → Control → Control
  unbind_uri_reply retval utm = record utm { state = start }

  -- vl_api_bind_uri_reply_t_handler
  abbrev pub bind_uri_reply : ℕ → Control → Control
  bind_uri_reply retval utm = record utm { state = if retval == 0 then ready else failed }

  -- The handlers that tcp_echo_api_hookup registers.
  unfoldable pub handle_api : ApiMsg → Control → Control
  unfolding application_attach_reply map_another_segment drop_segment
  handle_api (attach_reply mp) utm = application_attach_reply mp utm
  handle_api (detach_reply retval) utm = application_detach_reply retval utm
  handle_api (map_segment mp) utm = map_another_segment mp utm
  handle_api (unmap_segment mp) utm = drop_segment mp utm
  handle_api (unbind_reply retval) utm = unbind_uri_reply retval utm
  handle_api (bind_reply retval) utm = bind_uri_reply retval utm
  handle_api cut_through_add utm = utm

  unfoldable pub handle_messages : List ApiMsg → Control → Control
  unfolding handle_api
  handle_messages [] utm = utm
  handle_messages (m ∷ ms) utm = handle_messages ms (handle_api m utm)
