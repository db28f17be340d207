-- ===== src/UdpEcho/Client/Chooses.antt =====
-- What client_test of src/udp-echo/main.c sends on, with a session and without one.
use dpdk_perf.Common.{
  ℕ, ◌≡◌, refl, subst, Bool, ◌++◌, Option, none, some, List, [], ◌∷◌, All, Option-cases, inl, inr,
}
use dpdk_perf.UdpEcho.Vpp.{PoolOps, HashOps}
use dpdk_perf.UdpEcho.Session.{ConnectionState, attached, AppSession, ConnectedMsg, EchoMain}
use dpdk_perf.UdpEcho.Control.Wait.{Reaches, wait_for_state_change_lem}
use dpdk_perf.UdpEcho.Send.{Transfer, Answer, send_loop}
use dpdk_perf.UdpEcho.Client.{
  Request, attach, connect, detach, Turn, wait_for_session, chosen, client_send_data, client_test,
  Ends, waiting, sending, sent_on,
}
use dpdk_perf.UdpEcho.Client.Connects.{
  IsForClient, first_connection, IsFresh, IsConnected, Settles, wait_for_session-Settles,
}

module _ (P : PoolOps AppSession) (H : HashOps) where
  -- A client that sends on a session: either its loop still runs, or all has gone to the FIFO of this
  -- session for sending, and it has asked to be detached.
  pub data SendsOn (session : ℕ) (u : EchoMain P H) (asked : List Request) (my_client_index : ℕ)
      (rounds : List (Bool × Answer)) (transfer : Transfer) : Ends P H → Type 0 where
    sends :
        send_loop rounds transfer ≡ none
        → SendsOn session u asked my_client_index rounds transfer (sending asked)
    has_sent :
        (sent : Transfer)
        → send_loop rounds transfer ≡ some sent
        → SendsOn session u asked my_client_index rounds transfer (
            sent_on
              ((P.elt u.sessions session).tx_fifo, sent)
              u
              (asked ++ (detach my_client_index ∷ [])))

  -- How client_test goes from the first connection that VPP has made: none while it waits, some none
  -- if the time is up first.
  abbrev pub Chooses :
      EchoMain P H
      → List Request
      → ℕ
      → List (Bool × Answer)
      → Transfer
      → Option (Option ConnectedMsg)
      → Ends P H
      → Type 0
  Chooses utm asked i rounds transfer none o = o ≡ waiting asked
  Chooses utm asked i rounds transfer (some none) o =
      (P.elts utm.sessions ≡ 0) × SendsOn utm.connected_session utm asked i rounds transfer o
  Chooses utm asked i rounds transfer (some (some mp)) o =
      (u : EchoMain P H) × IsConnected P H mp u × SendsOn (chosen P H u) u asked i rounds transfer o

  data_sent :
      (u : EchoMain P H) (session : ℕ) (asked : List Request) (i : ℕ)
      (rounds : List (Bool × Answer)) (transfer : Transfer)
      → SendsOn session u asked i rounds transfer
          (elim (client_send_data P H session rounds u transfer) [
            | none ↦ sending asked
            | some sent ↦ sent_on sent u (asked ++ (detach i ∷ []))
          ])
  unfolding client_send_data
  data_sent u session asked i rounds transfer = elim (Option-cases (send_loop rounds transfer)) [
    | inl e ↦ rw (e, client_send_data) (sends e)
    | inr (sent, e) ↦ rw (e, client_send_data) (has_sent sent e)
  ]

  -- From a state without sessions, handles and cut-through session, where the next free index of the
  -- pool is not ~0, over any events that VPP sends to a client: if STATE_ATTACHED is reached,
  -- client_test waits until the first connection that VPP has made, or until the time is up. With a
  -- connection, the pool has just one session, which has the FIFOs of the message, and client_test
  -- sends on that one. If the time is up first, there is no session, and client_test sends all the
  -- same, on the session with the number connected_session. It has asked to attach and to connect,
  -- and asks to be detached once all is sent.
  pub client_test-Chooses :
      (remote : Option (ℕ × ℕ)) (my_client_index fifo_size : ℕ) (uri : List ℕ)
      (states : List ConnectionState) (ts : List Turn) (rounds : List (Bool × Answer))
      (utm : EchoMain P H) (transfer : Transfer)
      → IsFresh P H (record utm { state = attached })
      → Reaches attached states
      → All IsForClient ts
      → Chooses
          (record utm { state = attached })
          (attach my_client_index fifo_size ∷ connect my_client_index uri ∷ [])
          my_client_index
          rounds
          transfer
          (first_connection ts)
          (client_test P H remote my_client_index fifo_size uri states ts rounds utm transfer)
  unfolding client_test
  client_test-Chooses remote i fifo_size uri states ts rounds utm transfer v at_last h =
      rw ((wait_for_state_change_lem attached states).1 at_last, client_test)
        (go (first_connection ts)
          (wait_for_session-Settles P H remote ts (record utm { state = attached }) v h))
    where
      start : EchoMain P H
      start = record utm { state = attached }

      asked : List Request
      asked = attach i fifo_size ∷ connect i uri ∷ []

      number : chosen P H start ≡ start.connected_session
      number = rw v.no_cut_through refl

      go :
          (c : Option (Option ConnectedMsg))
          → Settles P H start c (wait_for_session P H remote ts start)
          → Chooses start asked i rounds transfer c (elim (wait_for_session P H remote ts start) [
            | none ↦ waiting asked
            | some u ↦ elim (client_send_data P H (chosen P H u) rounds u transfer) [
              | none ↦ sending asked
              | some sent ↦ sent_on sent u (asked ++ (detach i ∷ []))
            ]
          ])
      go none e = rw e refl
      go (some none) e = rw e (
        v.empty,
        subst
            (λ k.
              SendsOn k start asked i rounds transfer
                (elim (client_send_data P H (chosen P H start) rounds start transfer) [
                  | none ↦ sending asked
                  | some sent ↦ sent_on sent start (asked ++ (detach i ∷ []))
                ]))
            number (data_sent start (chosen P H start) asked i rounds transfer),
      )
      go (some (some mp)) (u, e, c) =
          rw e (u, c, data_sent u (chosen P H u) asked i rounds transfer)
