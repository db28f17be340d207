-- ===== src/UdpEcho/Client.antt =====
-- client_test of src/udp-echo/main.c: the requests of the client, and its wait for a session on the
-- event queue, and the sending on the session. The events, the states that wait_for_state_change
-- reads, the clock's test and the answers of the FIFO are arguments.
pub mod Connects
pub mod Chooses
pub mod Delivers
mod Tests
use dpdk_perf.Common.{
  ℕ, ◌^◌, Bool, true, false, ◌&&◌, ◌||◌, not, Option, none, some, List, [], ◌∷◌, ◌++◌, ◌==◌,
  if◌then◌else◌,
}
use dpdk_perf.Common.Int.{ℤ, pos, negsuc}
use dpdk_perf.UdpEcho.Vpp.{PoolOps, HashOps}
use dpdk_perf.UdpEcho.Session.{
  ConnectionState, attached, failed, detached, AppSession, SessionEvent, EchoMain, handle_mq_event,
  no_index,
}
use dpdk_perf.UdpEcho.Send.{Transfer, Answer, send_loop}
use dpdk_perf.UdpEcho.Control.{same_state, wait_for_state_change}

-- The messages of application_send_attach, udp_client_send_connect and application_detach: the
-- client's index, and the size of the FIFOs or the URI.
pub data Request : Type 0 where
  attach : ℕ → ℕ → Request
  connect : ℕ → List ℕ → Request
  detach : ℕ → Request

-- An event of the queue, and whether the time is up once it is handled.
pub record Turn : Type 0 where
  pub event : SessionEvent
  pub time_up : Bool

module _ (P : PoolOps AppSession) (H : HashOps) where
  -- The negation of the condition of the loop.
  abbrev pub is_settled : EchoMain P H → Bool
  is_settled utm = (P.elts utm.sessions == 1) || same_state utm.state failed

  -- The session that the client sends on.
  abbrev pub chosen : EchoMain P H → ℕ
  chosen utm =
      if utm.cut_through_session_index == no_index
      then utm.connected_session
      else utm.cut_through_session_index

  -- The loop; none is a client that waits for another event.
  unfoldable pub wait_for_session :
      Option (ℕ × ℕ) → List Turn → EchoMain P H → Option (EchoMain P H)
  unfolding handle_mq_event
  wait_for_session remote [] utm = if is_settled utm then some utm else none
  wait_for_session remote (t ∷ ts) utm =
      let utm' = handle_mq_event P H remote t.event utm in
      let rest = wait_for_session remote ts utm' in
      if is_settled utm then some utm else if t.time_up then some utm' else rest

  -- client_send_data on a session: the FIFO it sends on, and what it has sent when its loop ends. The
  -- rates are only printed, and what it receives is discarded.
  unfoldable pub client_send_data :
      ℕ → List (Bool × Answer) → EchoMain P H → Transfer → Option (ℕ × Transfer)
  unfolding send_loop
  client_send_data session_index rounds utm transfer =
      let session = P.elt utm.sessions session_index in
      elim (send_loop rounds transfer) [
        | none ↦ none
        | some transfer' ↦ some (session.tx_fifo, transfer')
      ]

  -- How client_test ends: it could not attach, it waits for an event, it is still sending, or it has
  -- sent on a FIFO and asked to be detached.
  pub data Ends : Type 0 where
    not_attached : List Request → Ends
    waiting : List Request → Ends
    sending : List Request → Ends
    sent_on : ℕ × Transfer → EchoMain P H → List Request → Ends

  -- client_test; the state after the first wait is the one that it has read, and the result of the last
  -- wait is not looked at.
  unfoldable pub client_test :
      Option (ℕ × ℕ)
      → ℕ
      → ℕ
      → List ℕ
      → List ConnectionState
      → List Turn
      → List (Bool × Answer)
      → EchoMain P H
      → Transfer
      → Ends
  unfolding wait_for_session client_send_data
  client_test remote my_client_index fifo_size connect_uri states ts rounds utm transfer =
      let asked = attach my_client_index fifo_size ∷ [] in
      elim (wait_for_state_change attached states) [
        | negsuc e ↦ not_attached asked
        | pos e ↦
            let connecting = asked ++ (connect my_client_index connect_uri ∷ []) in
            elim (wait_for_session remote ts (record utm { state = attached })) [
              | none ↦ waiting connecting
              | some u ↦ elim (client_send_data (chosen u) rounds u transfer) [
                | none ↦ sending connecting
                | some sent ↦ sent_on sent u (connecting ++ (detach my_client_index ∷ []))
              ]
            ]
      ]
