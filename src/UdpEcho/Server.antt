-- ===== src/UdpEcho/Server.antt =====
-- udp_server_test of src/udp-echo/main.c: the requests of the server, and server_handle_event_queue,
-- which hands each event of the queue to server_handle_fifo_event_rx or to handle_mq_event. The
-- events, the states that wait_for_state_change reads, what the FIFOs answer and the flags that
-- signals set are arguments.
pub mod Queue
pub mod Requests
use dpdk_perf.Common.{
  ℕ, Bool, true, false, ◌||◌, Option, none, some, List, [], ◌∷◌, ◌++◌, if◌then◌else◌,
}
use dpdk_perf.Common.Int.{ℤ, pos, negsuc}
use dpdk_perf.UdpEcho.Vpp.{PoolOps, HashOps}
use dpdk_perf.UdpEcho.Session.{
  ConnectionState, start, bound, ready, AppSession, SessionEvent, EchoMain, handle_mq_event,
}
use dpdk_perf.UdpEcho.Control.{same_state, wait_for_state_change}
use dpdk_perf.UdpEcho.Echo.{Round, Echo, server_handle_fifo_event_rx}

-- What one turn of the queue brings: a failure of svm_msg_q_sub, bytes in the FIFO of a session, with
-- their number and the rounds of the echo, or another event.
pub data Job : Type 0 where
  broken : Job
  rx : ℕ → ℕ → List Round → Job
  control : SessionEvent → Job

-- `stop` and `print` are time_to_stop and time_to_print_stats once the event is handled.
pub record Turn : Type 0 where
  pub job : Job
  pub stop : Bool
  pub print : Bool

-- An echo: the session, the bytes that were in its FIFO, and the state that it ends with.
pub record Answered : Type 0 where
  pub session_index : ℕ
  pub max_dequeue : ℕ
  pub echo : Echo

abbrev pub nothing_yet : ℕ → Echo
nothing_yet n = record { max_dequeue = n; received = []; sent = []; recorded = []; tx_events = 0 }

-- The messages of application_send_attach, server_bind, server_unbind and application_detach.
pub data Request : Type 0 where
  attach : ℕ → ℕ → Request
  bind unbind : ℕ → List ℕ → Request
  detach : ℕ → Request

-- while (utm->state != STATE_READY), over the states that it reads.
unfoldable pub wait_until_ready : List ConnectionState → Bool
wait_until_ready [] = false
wait_until_ready (s ∷ ss) = same_state s ready || wait_until_ready ss

module _ (P : PoolOps AppSession) (H : HashOps) where
  -- The sessions, the echoes and the numbers of connections printed, newest first.
  pub record Served : Type 0 where
    pub utm : EchoMain P H
    pub echoes : List Answered
    pub printed : List ℕ

  module _ (have_return : Bool) (rx_buf_len : ℕ) (remote : Option (ℕ × ℕ)) where
    -- One event; none if the echo still runs when its rounds end.
    unfoldable pub handle_job : Job → Served → Option Served
    unfolding handle_mq_event server_handle_fifo_event_rx
    handle_job broken s = some s
    handle_job (rx i n rs) s =
        elim (server_handle_fifo_event_rx have_return rx_buf_len rs (nothing_yet n)) [
          | none ↦ none
          | some e ↦ some (record s {
            echoes = record { session_index = i; max_dequeue = n; echo = e } ∷ s.echoes;
          })
        ]
    handle_job (control e) s = some (record s { utm = handle_mq_event P H remote e s.utm })

  -- How the loop ends: it waits, for an event or before that for STATE_READY, it is in an echo, or it
  -- has returned.
  pub data Ends : Type 0 where
    waiting busy returned : Served → Ends

  abbrev pub note_connections : Bool → Served → Served
  note_connections print s =
      if print then record s { printed = P.elts s.utm.sessions ∷ s.printed } else s

  module _ (have_return : Bool) (rx_buf_len : ℕ) (remote : Option (ℕ × ℕ)) where
    -- while (1); a failure of svm_msg_q_sub goes on without a look at the flags.
    unfoldable pub handle_events : List Turn → Served → Ends
    unfolding handle_job
    handle_events [] s = waiting s
    handle_events (t ∷ ts) s = elim (handle_job have_return rx_buf_len remote t.job s) [
      | none ↦ busy s
      | some s' ↦ (elim t.job [
        | broken ↦ handle_events ts s'
        | _ ↦
            let rest = handle_events ts (note_connections t.print s') in
            if t.stop then returned s' else rest
      ])
    ]

    -- server_handle_event_queue: its wait for STATE_READY over the states that it reads, and its loop.
    unfoldable pub server_handle_event_queue : List ConnectionState → List Turn → Served → Ends
    unfolding handle_events wait_until_ready
    server_handle_event_queue states ts s =
        if wait_until_ready states then handle_events ts s else waiting s

  -- How udp_server_test ends, with its requests: a state was not reached, its loop runs, or it has
  -- come to its end.
  pub data Outcome : Type 0 where
    timed_out : List Request → Outcome
    running : Ends → List Request → Outcome
    complete : Served → List Request → Outcome

  -- udp_server_test. The states are those that its three waits read, the second one in
  -- server_handle_event_queue.
  unfoldable pub udp_server_test :
      Bool
      → ℕ
      → Option (ℕ × ℕ)
      → ℕ
      → ℕ
      → List ℕ
      → List ConnectionState
      → List ConnectionState
      → List Turn
      → List ConnectionState
      → Served
      → Outcome
  unfolding server_handle_event_queue
  udp_server_test have_return rx_buf_len remote my_client_index fifo_size listen_uri before
        meanwhile ts after s =
      let wait_for_state = if s.utm.is_connected then bound else ready in
      let asked = attach my_client_index fifo_size ∷ bind my_client_index listen_uri ∷ [] in
      elim (wait_for_state_change wait_for_state before) [
        | negsuc e ↦ timed_out asked
        | pos e ↦ (elim (server_handle_event_queue have_return rx_buf_len remote meanwhile ts s) [
          | returned s' ↦
              let unbinding = asked ++ (unbind my_client_index listen_uri ∷ []) in
              elim (wait_for_state_change start after) [
                | negsuc e' ↦ timed_out unbinding
                | pos e' ↦ complete s' (unbinding ++ (detach my_client_index ∷ []))
              ]
          | waiting s' ↦ running (waiting s') asked
          | busy s' ↦ running (busy s') asked
        ])
      ]
