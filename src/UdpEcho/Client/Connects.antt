-- ===== src/UdpEcho/Client/Connects.antt =====
-- The session that the client of src/udp-echo/main.c sends on.
use dpdk_perf.Common.{
  ℕ, ◌≡◌, ◌≢◌, refl, sym, ap, subst, ◌∙◌, Bool, true, false, Option, none, some, List, [], ◌∷◌, All,
  arith, ◌==◌, if◌then◌else◌, Bool-cases, inl, inr,
}
use dpdk_perf.UdpEcho.Vpp.{PoolOps, HashOps}
use dpdk_perf.UdpEcho.Session.{
  failed, AppSession, DisconnectedMsg, ConnectedMsg, SessionEvent, on_bound, on_accepted,
  on_connected, on_disconnected, unhandled, EchoMain, handle_mq_event, take_connection,
  connect_remote, cut_through, no_index, session_disconnected_handler, session_connected_handler,
}
use dpdk_perf.UdpEcho.Control.{same_state}
use dpdk_perf.UdpEcho.Client.{Turn, is_settled, wait_for_session, chosen}

-- What VPP sends to a client that has not listened.
abbrev pub IsForClient : Turn → Type 0
IsForClient t = elim t.event [
  | on_bound mp ↦ ⊥
  | on_accepted mp ↦ ⊥
  | on_connected mp ↦ Unit {0}
  | on_disconnected mp ↦ Unit {0}
  | unhandled n ↦ Unit {0}
]

-- A connection that VPP has made.
abbrev pub connection : SessionEvent → Option ConnectedMsg
connection (on_connected mp) = if mp.retval == 0 then some mp else none
connection _ = none

-- How the wait goes: none while it goes on, some none if the time is up first, else the connection.
abbrev pub first_connection : List Turn → Option (Option ConnectedMsg)
first_connection [] = none
first_connection (t ∷ ts) =
    let rest = first_connection ts in
    elim (connection t.event) [
      | some mp ↦ some (some mp)
      | none ↦ if t.time_up then some none else rest
    ]

module _ (P : PoolOps AppSession) (H : HashOps) where
  -- The state in which main starts client_test: no session and no handle.
  pub record IsFresh (utm : EchoMain P H) : Type 0 where
    pub empty : P.elts utm.sessions ≡ 0
    pub no_handles : (k : ℕ) → H.get utm.session_index_by_vpp_handles k ≡ none
    pub not_failed : same_state utm.state failed ≡ false
    pub no_cut_through : utm.cut_through_session_index ≡ no_index
    pub has_room : (P.get utm.sessions).1 ≢ no_index

  -- The session chosen is the one of the pool, and has the FIFOs of the message.
  pub record IsConnected (mp : ConnectedMsg) (u : EchoMain P H) : Type 0 where
    pub only : P.elts u.sessions ≡ 1
    pub live : P.live u.sessions (chosen P H u) ≡ true
    pub index : (P.elt u.sessions (chosen P H u)).session_index ≡ chosen P H u
    pub rx_fifo : (P.elt u.sessions (chosen P H u)).rx_fifo ≡ mp.server_rx_fifo
    pub tx_fifo : (P.elt u.sessions (chosen P H u)).tx_fifo ≡ mp.server_tx_fifo

  -- A session that is handed out and written.
  written-IsConnected :
      (mp : ConnectedMsg) (p : P.Pool) (a : AppSession) (u : EchoMain P H)
      → P.elts p ≡ 0
      → u.sessions ≡ P.write (P.get p).0 (P.get p).1 a
      → chosen P H u ≡ (P.get p).1
      → a.session_index ≡ (P.get p).1
      → a.rx_fifo ≡ mp.server_rx_fifo
      → a.tx_fifo ≡ mp.server_tx_fifo
      → IsConnected mp u
  written-IsConnected mp p a u empty e c i rx tx =
      let n : ℕ = (P.get p).1 in
      let here : P.elt u.sessions (chosen P H u) ≡ a =
        rw (e, c) (ground (arith, P.elt-write (P.get p).0 n n a)) in
      record {
        only = rw e (omega (arith, P.elts-write (P.get p).0 n a, P.elts-get p, empty));
        live = rw (e, c) (ground (arith, P.live-write (P.get p).0 n n a, P.live-get p n));
        index = ap (λ (s : AppSession). s.session_index) here ∙ i ∙ sym c;
        rx_fifo = ap (λ (s : AppSession). s.rx_fifo) here ∙ rx;
        tx_fifo = ap (λ (s : AppSession). s.tx_fifo) here ∙ tx;
      }

  taken-IsConnected :
      (remote : Option (ℕ × ℕ)) (mp : ConnectedMsg) (utm : EchoMain P H)
      → IsFresh utm
      → IsConnected mp (take_connection P H remote mp utm)
  taken-IsConnected remote mp utm v = go (mp.ct_rx_fifo == 0) remote
    where
      n : ℕ
      n = (P.get utm.sessions).1

      kept : chosen P H (record utm { connected_session = n }) ≡ n
      kept = rw v.no_cut_through refl

      went : (if n == no_index then utm.connected_session else n) ≡ n
      went = ground (arith, v.has_room)

      s : AppSession
      s = record (P.elt (P.get utm.sessions).0 n) {
        session_index = n;
        rx_fifo = mp.server_rx_fifo;
        tx_fifo = mp.server_tx_fifo;
      }

      u : EchoMain P H
      u = record utm { sessions = (P.get utm.sessions).0 }

      go :
          (b : Bool) (r : Option (ℕ × ℕ))
          → IsConnected mp (if b then connect_remote P H r mp n s u else cut_through P H mp n s u)
      go true none = written-IsConnected mp utm.sessions _ _ v.empty refl kept refl refl refl
      go true (some (ip, port)) =
          written-IsConnected mp utm.sessions _ _ v.empty refl kept refl refl refl
      go false r = written-IsConnected mp utm.sessions _ _ v.empty refl went refl refl refl

  -- An event that is no connection made leaves the client as it is.
  unsettled : (utm : EchoMain P H) → IsFresh utm → is_settled P H utm ≡ false
  unsettled utm v = rw (v.empty, v.not_failed) refl

  unknown :
      (mp : DisconnectedMsg) (utm : EchoMain P H)
      → H.get utm.session_index_by_vpp_handles mp.handle ≡ none
      → session_disconnected_handler P H mp utm ≡ utm
  unfolding session_disconnected_handler
  unknown mp utm e = rw (e, session_disconnected_handler) refl

  ignored :
      (remote : Option (ℕ × ℕ)) (t : Turn) (utm : EchoMain P H)
      → IsForClient t
      → IsFresh utm
      → connection t.event ≡ none
      → handle_mq_event P H remote t.event utm ≡ utm
  unfolding handle_mq_event session_disconnected_handler session_connected_handler
  ignored remote t utm c v e = go t.event c e
    where
      go :
          (ev : SessionEvent)
          → IsForClient (record { event = ev; time_up = false })
          → connection ev ≡ none
          → handle_mq_event P H remote ev utm ≡ utm
      go (on_bound mp) c' e' = absurd c'
      go (on_accepted mp) c' e' = absurd c'
      go (on_connected mp) c' e' = elim (Bool-cases (mp.retval == 0)) [
        | inl q ↦ absurd (ground (arith, e', q))
        | inr q ↦ rw q refl
      ]
      go (on_disconnected mp) c' e' = unknown mp utm (v.no_handles mp.handle)
      go (unhandled n) c' e' = refl

  made :
      (remote : Option (ℕ × ℕ)) (ev : SessionEvent) (mp : ConnectedMsg) (utm : EchoMain P H)
      → connection ev ≡ some mp
      → handle_mq_event P H remote ev utm ≡ take_connection P H remote mp utm
  unfolding handle_mq_event session_connected_handler
  made remote (on_bound mp') mp utm e = absurd (ground (arith, e))
  made remote (on_accepted mp') mp utm e = absurd (ground (arith, e))
  made remote (on_connected mp') mp utm e = elim (Bool-cases (mp'.retval == 0)) [
    | inl q ↦
        let some' : some mp' ≡ some mp =
          subst (λ b. (if b then some mp' else none) ≡ some mp) q e in
        let same : mp' ≡ mp = ap (λ o. elim o [ none ↦ mp | some x ↦ x ]) some' in
        rw q (ap (λ m. take_connection P H remote m utm) same)
    | inr q ↦ absurd (ground (arith, e, q))
  ]
  made remote (on_disconnected mp') mp utm e = absurd (ground (arith, e))
  made remote (unhandled n) mp utm e = absurd (ground (arith, e))

  -- A client with a session waits no longer.
  settled :
      (remote : Option (ℕ × ℕ)) (ts : List Turn) (u : EchoMain P H)
      → P.elts u.sessions ≡ 1
      → wait_for_session P H remote ts u ≡ some u
  unfolding wait_for_session
  settled remote [] u e = rw e refl
  settled remote (t ∷ ts) u e = rw e refl

  -- What the client has when it settles.
  abbrev pub Settles : EchoMain P H → Option (Option ConnectedMsg) → Option (EchoMain P H) → Type 0
  Settles utm none r = r ≡ none
  Settles utm (some none) r = r ≡ some utm
  Settles utm (some (some mp)) r = (u : EchoMain P H) × (r ≡ some u) × IsConnected mp u

  -- The wait for a session from a fresh state, over events for a client: it goes on until the first
  -- connection that VPP has made, or until the time is up, which leaves the state as it was.
  pub wait_for_session-Settles :
      (remote : Option (ℕ × ℕ)) (ts : List Turn) (utm : EchoMain P H)
      → IsFresh utm
      → All IsForClient ts
      → Settles utm (first_connection ts) (wait_for_session P H remote ts utm)
  unfolding wait_for_session
  wait_for_session-Settles remote [] utm v h = rw (unsettled utm v) refl
  wait_for_session-Settles remote (t ∷ ts) utm v (h, hs) =
      rw (unsettled utm v)
        (go (connection t.event) refl t.time_up (wait_for_session-Settles remote ts utm v hs))
    where
      ends :
          (b : Bool) (u w : EchoMain P H)
          → w ≡ u
          → wait_for_session P H remote ts u ≡ some u
          → (if b then some w else wait_for_session P H remote ts w) ≡ some u
      ends true u w e s = ap some e
      ends false u w e s = ap (wait_for_session P H remote ts) e ∙ s

      go :
          (o : Option ConnectedMsg)
          → connection t.event ≡ o
          → (b : Bool) → Settles utm (first_connection ts) (wait_for_session P H remote ts utm)
          → let utm' = handle_mq_event P H remote t.event utm in
            Settles utm
              (elim o [
                | some mp ↦ some (some mp)
                | none ↦ if b then some none else first_connection ts
              ])
              (if b then some utm' else wait_for_session P H remote ts utm')
      go none q true ih = ap some (ignored remote t utm h v q)
      go none q false ih =
          subst (λ w. Settles utm (first_connection ts) (wait_for_session P H remote ts w))
            (sym (ignored remote t utm h v q)) ih
      go (some mp) q b ih =
          let e = made remote t.event mp utm q in
          let it = taken-IsConnected remote mp utm v in
          let u = take_connection P H remote mp utm in
          (u, ends b u (handle_mq_event P H remote t.event utm) e (settled remote ts u it.only), it)
