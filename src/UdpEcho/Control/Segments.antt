-- ===== src/UdpEcho/Control/Segments.antt =====
-- The table of segments of src/udp-echo/main.c against the messages that it has handled. Which segments
-- are attached is not said: unmapping reads the index from a table entry that hash_unset has removed.
use dpdk_perf.Common.{
  ℕ, ◌≡◌, refl, ap, ◌∙◌, Option, none, some, List, [], ◌∷◌, arith, ◌==◌, if◌then◌else◌, Bool-cases,
  Option-cases, inl, inr,
}
use dpdk_perf.UdpEcho.Vpp.{HashOps}
use dpdk_perf.UdpEcho.Control.{
  AttachReply, ApiMsg, attach_reply, detach_reply, map_segment, unmap_segment, unbind_reply,
  bind_reply, cut_through_add, Control, application_attach_reply, map_another_segment, drop_segment,
  handle_api, handle_messages,
}

module _ (H : HashOps) (net_to_host : ℕ → ℕ) where
  -- What a message says of a handle: that it has the segment with an index, that it has none, or
  -- nothing. An attachment that failed says nothing.
  abbrev pub says : ℕ → ApiMsg → Option (Option ℕ)
  says h (map_segment mp) = elim mp.segment [
    | none ↦ none
    | some i ↦ if net_to_host mp.segment_handle == h then some (some i) else none
  ]
  says h (unmap_segment mp) = if net_to_host mp.segment_handle == h then some none else none
  says h _ = none

  -- What the last message with a say in it says of a handle, and what was so before if there is none.
  abbrev pub last_say : ℕ → Option ℕ → List ApiMsg → Option ℕ
  last_say h before [] = before
  last_say h before (m ∷ ms) = last_say h (elim (says h m) [ none ↦ before | some i ↦ i ]) ms

  attach_keeps :
      (mp : AttachReply) (utm : Control H net_to_host)
      → (application_attach_reply H net_to_host mp utm).segments_table ≡ utm.segments_table
  unfolding application_attach_reply
  attach_keeps mp utm = elim (Bool-cases (mp.retval == 0)) [
    | inr e ↦ rw (e, application_attach_reply) refl
    | inl e ↦ elim (Bool-cases (mp.segment_name_length == 0)) [
      | inl f ↦ rw (e, f, application_attach_reply) refl
      | inr f ↦ elim (Option-cases mp.segment) [
        | inl g ↦ rw (e, f, g, application_attach_reply) refl
        | inr (n, g) ↦ rw (e, f, g, application_attach_reply) refl
      ]
    ]
  ]

  handle_api-says :
      (h : ℕ) (m : ApiMsg) (utm : Control H net_to_host)
      → H.get (handle_api H net_to_host m utm).segments_table h
        ≡ elim (says h m) [ none ↦ H.get utm.segments_table h | some i ↦ i ]
  unfolding handle_api map_another_segment drop_segment
  handle_api-says h (attach_reply mp) utm = ap (λ t. H.get t h) (attach_keeps mp utm)
  handle_api-says h (detach_reply retval) utm = refl
  handle_api-says h (map_segment mp) utm = elim (Option-cases mp.segment) [
    | inl e ↦ rw (e, map_another_segment) refl
    | inr (n, e) ↦
        rw (e, map_another_segment)
          (ground (arith, H.get-set utm.segments_table (net_to_host mp.segment_handle) h n))
  ]
  handle_api-says h (unmap_segment mp) utm =
      let key : ℕ = net_to_host mp.segment_handle in
      elim (Option-cases (H.get utm.segments_table key)) [
        | inl e ↦ rw (e, drop_segment) (ground (arith, e))
        | inr (n, e) ↦ rw (e, drop_segment) (ground (arith, H.get-unset utm.segments_table key h))
      ]
  handle_api-says h (unbind_reply retval) utm = refl
  handle_api-says h (bind_reply retval) utm = refl
  handle_api-says h cut_through_add utm = refl

  -- After any sequence of messages segments_table leads a handle to the segment of the last successful
  -- mapping of this handle, and nowhere if it was unmapped after that; a handle that no message has
  -- mapped or unmapped leads to where it led before.
  pub handle_messages-last_say :
      (h : ℕ) (ms : List ApiMsg) (utm : Control H net_to_host)
      → H.get (handle_messages H net_to_host ms utm).segments_table h
        ≡ last_say h (H.get utm.segments_table h) ms
  unfolding handle_messages
  handle_messages-last_say h [] utm = refl
  handle_messages-last_say h (m ∷ ms) utm =
      handle_messages-last_say h ms (handle_api H net_to_host m utm)
      ∙ ap (λ o. last_say h o ms) (handle_api-says h m utm)
