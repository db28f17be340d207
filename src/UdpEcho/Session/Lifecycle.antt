-- ===== src/UdpEcho/Session/Lifecycle.antt =====
-- One session of src/udp-echo/main.c from its acceptance to its disconnection.
use dpdk_perf.Common.{ℕ, ◌≡◌, ap, ◌∙◌, true, none, some, ◌∷◌, arith, ◌==◌, if◌then◌else◌}
use dpdk_perf.UdpEcho.Vpp.{PoolOps, HashOps}
use dpdk_perf.UdpEcho.Session.{
  AppSession, AcceptedMsg, DisconnectedMsg, EchoMain, session_accepted_handler,
  session_disconnected_handler, drop_session, accepted_session, accepted_reply, disconnected_reply,
}

module _ (P : PoolOps AppSession) (H : HashOps) (mp : AcceptedMsg) (utm : EchoMain P H) where
  accepted : EchoMain P H
  accepted = session_accepted_handler P H mp utm

  index : ℕ
  index = (P.get utm.sessions).1

  found : H.get accepted.session_index_by_vpp_handles mp.handle ≡ some index
  unfolding accepted session_accepted_handler index
  found = ground (arith, H.get-set utm.session_index_by_vpp_handles mp.handle mp.handle index)

  module _ (context : ℕ) where
    abbrev goodbye : DisconnectedMsg
    goodbye = record { handle = mp.handle; context = context }

    pub ended : EchoMain P H
    ended = session_disconnected_handler P H goodbye accepted

    disconnect_drops : ended ≡ drop_session P H goodbye index accepted
    unfolding ended session_disconnected_handler
    disconnect_drops = rw (found, session_disconnected_handler)

    index_live : P.live accepted.sessions index ≡ true
    unfolding accepted session_accepted_handler index
    index_live = ground (
      arith,
      P.live-get utm.sessions index,
      P.live-write (P.get utm.sessions).0 index index (accepted_session mp index),
    )

    -- A session that is accepted and then disconnected leaves the table of handles without its
    -- handle and otherwise as it was, and gives its pool element back: the same elements are live,
    -- and as many as before.
    pub accepted-disconnected :
        ((j : ℕ)
          → H.get ended.session_index_by_vpp_handles j
            ≡ (if mp.handle == j then none else H.get utm.session_index_by_vpp_handles j))
        × ((i : ℕ) → P.live ended.sessions i ≡ P.live utm.sessions i)
        × (P.elts ended.sessions ≡ P.elts utm.sessions)
    unfolding accepted session_accepted_handler index
    accepted-disconnected =
        let t = utm.session_index_by_vpp_handles in
        let p = utm.sessions in
        let a = accepted_session mp index in
        let q = P.write (P.get p).0 index a in
        (
          λ j.
              ap (λ (u : EchoMain P H). H.get u.session_index_by_vpp_handles j) disconnect_drops
              ∙ ground (
                arith,
                H.get-unset (H.set t mp.handle index) mp.handle j,
                H.get-set t mp.handle j index,
              ),
          λ i.
              ap (λ (u : EchoMain P H). P.live u.sessions i) disconnect_drops
              ∙ ground (
                arith,
                P.live-put q index i,
                P.live-write (P.get p).0 index i a,
                P.live-get p i,
                P.get_fresh p,
              ),
          ap (λ (u : EchoMain P H). P.elts u.sessions) disconnect_drops
              ∙ ground (
                arith,
                P.elts-put q index index_live,
                P.elts-write (P.get p).0 index a,
                P.elts-get p,
              ),
        )

    -- The reply to the disconnection is put on the queue at address 0, as long as an element put
    -- back keeps its contents: session_accepted_handler never stores the session's queue.
    pub disconnected_reply_lost :
        ((p : P.Pool) (i : ℕ) → P.elt (P.put p i) i ≡ P.elt p i)
        → ended.sent
          ≡ disconnected_reply 0 mp.handle context 0
            ∷ accepted_reply mp.vpp_event_queue_address mp.handle mp.context 0
            ∷ utm.sent
    unfolding accepted session_accepted_handler index
    disconnected_reply_lost kept =
        let q = (P.get utm.sessions).0 in
        let a = accepted_session mp index in
        ap (λ (u : EchoMain P H). u.sent) disconnect_drops
        ∙ ground (arith, kept (P.write q index a) index, P.elt-write q index index a)
