-- ===== src/UdpEcho/Session/Tracking.antt =====
-- The handle table of src/udp-echo/main.c against its session pool.
use dpdk_perf.Common.{
  ℕ, ◌≡◌, ◌≢◌, refl, true, Option, none, some, List, [], ◌∷◌, arith, inl, inr, ◌==◌, Option-cases,
  Bool-cases, ap, ◌∙◌,
}
use dpdk_perf.UdpEcho.Vpp.{PoolOps, HashOps}
use dpdk_perf.UdpEcho.Session.{
  AppSession, AcceptedMsg, DisconnectedMsg, ConnectedMsg, BoundMsg, SessionEvent, on_bound,
  on_accepted, on_connected, on_disconnected, unhandled, EchoMain, session_accepted_handler,
  session_disconnected_handler, session_connected_handler, session_bound_handler, handle_mq_event,
  handle_all, take_connection, drop_session, accepted_session, bound_session,
}

module _ (P : PoolOps AppSession) (H : HashOps) where
  -- Every handle leads to a live session that knows its own index, and no two lead to one.
  pub record IsTracked (utm : EchoMain P H) : Type 0 where
    pub leads :
        (k i : ℕ)
        → H.get utm.session_index_by_vpp_handles k ≡ some i
        → (P.live utm.sessions i ≡ true) × ((P.elt utm.sessions i).session_index ≡ i)
    pub apart :
        (j k i : ℕ)
        → H.get utm.session_index_by_vpp_handles j ≡ some i
        → H.get utm.session_index_by_vpp_handles k ≡ some i
        → j ≡ k

  -- A fresh element, written: what the pool holds then.
  alloc :
      (p : P.Pool) (a : AppSession) (i : ℕ)
      → P.live p i ≡ true
      → let n = (P.get p).1 in
        let q = P.write (P.get p).0 n a in (P.live q i ≡ true) × (P.elt q i ≡ P.elt p i) × (n ≢ i)
  alloc p a i h =
      let n : ℕ = (P.get p).1 in
      let away : n ≢ i = λ e. ground (arith, P.get_fresh p) in
      (
        ground (arith, P.live-write (P.get p).0 n i a, P.live-get p i),
        ground (arith, P.elt-write (P.get p).0 n i a, P.elt-get p i, away),
        away,
      )

  alloc_self :
      (p : P.Pool) (a : AppSession)
      → let n = (P.get p).1 in
        let q = P.write (P.get p).0 n a in (P.live q n ≡ true) × (P.elt q n ≡ a)
  alloc_self p a =
      let n : ℕ = (P.get p).1 in
      (
        ground (arith, P.live-write (P.get p).0 n n a, P.live-get p n),
        ground (arith, P.elt-write (P.get p).0 n n a),
      )

  accepted-IsTracked :
      (mp : AcceptedMsg) (utm : EchoMain P H)
      → IsTracked utm
      → IsTracked (session_accepted_handler P H mp utm)
  unfolding session_accepted_handler
  accepted-IsTracked mp utm v =
      let t = utm.session_index_by_vpp_handles in
      let p = utm.sessions in
      let n : ℕ = (P.get p).1 in
      let a = accepted_session mp n in
      record {
        leads = λ k i h.
            ground (arith, H.get-set t mp.handle k n, v.leads k i, alloc p a i, alloc_self p a);
        apart = λ j k i hj hk. ground (
          arith,
          H.get-set t mp.handle j n,
          H.get-set t mp.handle k n,
          v.apart j k i,
          v.leads j i,
          v.leads k i,
          P.get_fresh p,
        );
      }

  -- A handler that takes an element and leaves the handles alone.
  alloc-IsTracked :
      (utm utm' : EchoMain P H) (a : AppSession)
      → IsTracked utm
      → utm'.session_index_by_vpp_handles ≡ utm.session_index_by_vpp_handles
      → utm'.sessions ≡ P.write (P.get utm.sessions).0 (P.get utm.sessions).1 a
      → IsTracked utm'
  alloc-IsTracked utm utm' a v handles pool = record {
    leads = λ k i h.
        let old = v.leads k i (rw handles at h) in
        let new = alloc utm.sessions a i old.0 in
        rw pool (new.0, ap (λ (s : AppSession). s.session_index) new.1 ∙ old.1);
    apart = λ j k i hj hk. v.apart j k i (rw handles at hj) (rw handles at hk);
  }

  take_connection-IsTracked :
      (remote : Option (ℕ × ℕ)) (mp : ConnectedMsg) (utm : EchoMain P H)
      → IsTracked utm
      → IsTracked (take_connection P H remote mp utm)
  take_connection-IsTracked none mp utm v = elim (Bool-cases (mp.ct_rx_fifo == 0)) [
    | inl e ↦ rw e (alloc-IsTracked utm _ _ v refl refl)
    | inr e ↦ rw e (alloc-IsTracked utm _ _ v refl refl)
  ]
  take_connection-IsTracked (some (ip, port)) mp utm v = elim (Bool-cases (mp.ct_rx_fifo == 0)) [
    | inl e ↦ rw e (alloc-IsTracked utm _ _ v refl refl)
    | inr e ↦ rw e (alloc-IsTracked utm _ _ v refl refl)
  ]

  connected-IsTracked :
      (remote : Option (ℕ × ℕ)) (mp : ConnectedMsg) (utm : EchoMain P H)
      → IsTracked utm
      → IsTracked (session_connected_handler P H remote mp utm)
  unfolding session_connected_handler
  connected-IsTracked remote mp utm v = elim (Bool-cases (mp.retval == 0)) [
    | inl e ↦ rw e (take_connection-IsTracked remote mp utm v)
    | inr e ↦ rw e v
  ]

  bound-IsTracked :
      (mp : BoundMsg) (utm : EchoMain P H)
      → IsTracked utm
      → IsTracked (session_bound_handler P H mp utm)
  unfolding session_bound_handler
  bound-IsTracked mp utm v = elim (Bool-cases (mp.retval == 0)) [
    | inl e ↦ rw e (alloc-IsTracked utm _ (bound_session mp) v refl refl)
    | inr e ↦ rw e (record { leads = v.leads; apart = v.apart })
  ]

  drop_session-IsTracked :
      (mp : DisconnectedMsg) (n : ℕ) (utm : EchoMain P H)
      → H.get utm.session_index_by_vpp_handles mp.handle ≡ some n
      → IsTracked utm
      → IsTracked (drop_session P H mp n utm)
  drop_session-IsTracked mp n utm e v =
      let t = utm.session_index_by_vpp_handles in
      record {
        leads = λ k i h.
            let away : n ≢ i =
              λ same. ground (arith, H.get-unset t mp.handle k, v.apart mp.handle k i) in
            ground (
              arith,
              H.get-unset t mp.handle k,
              v.leads k i,
              P.live-put utm.sessions n i,
              P.elt-put utm.sessions n i away,
              away,
            );
        apart = λ j k i hj hk.
            ground (arith, H.get-unset t mp.handle j, H.get-unset t mp.handle k, v.apart j k i);
      }

  disconnected-IsTracked :
      (mp : DisconnectedMsg) (utm : EchoMain P H)
      → IsTracked utm
      → IsTracked (session_disconnected_handler P H mp utm)
  unfolding session_disconnected_handler
  disconnected-IsTracked mp utm v =
      elim (Option-cases (H.get utm.session_index_by_vpp_handles mp.handle)) [
        | inl e ↦ rw (e, session_disconnected_handler) v
        | inr (n, e) ↦ rw (e, session_disconnected_handler) (drop_session-IsTracked mp n utm e v)
      ]

  handle-IsTracked :
      (remote : Option (ℕ × ℕ)) (e : SessionEvent) (utm : EchoMain P H)
      → IsTracked utm
      → IsTracked (handle_mq_event P H remote e utm)
  unfolding handle_mq_event
  handle-IsTracked remote (on_bound mp) utm v = bound-IsTracked mp utm v
  handle-IsTracked remote (on_accepted mp) utm v = accepted-IsTracked mp utm v
  handle-IsTracked remote (on_connected mp) utm v = connected-IsTracked remote mp utm v
  handle-IsTracked remote (on_disconnected mp) utm v = disconnected-IsTracked mp utm v
  handle-IsTracked remote (unhandled t) utm v = v

  -- After any sequence of session events, every handle in the table leads to a live session of the
  -- pool that carries its own index, and two handles never lead to the same session, if that was
  -- so before.
  pub handle_all-IsTracked :
      (remote : Option (ℕ × ℕ)) (es : List SessionEvent) (utm : EchoMain P H)
      → IsTracked utm
      → IsTracked (handle_all P H remote es utm)
  unfolding handle_all
  handle_all-IsTracked remote [] utm v = v
  handle_all-IsTracked remote (e ∷ es) utm v =
      handle_all-IsTracked remote es (handle_mq_event P H remote e utm)
        (handle-IsTracked remote e utm v)
