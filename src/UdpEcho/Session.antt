-- ===== src/UdpEcho/Session.antt =====
-- The state of src/udp-echo/main.c and its event handlers. Addresses are numbers, 0 is null; the
-- messages sent to VPP are kept in order, newest first. The log output is left out, and with it
-- the static start_time of session_accepted_handler, which only the log reads.
pub mod Tracking
pub mod Lifecycle
use dpdk_perf.Common.{
  ℕ, zero, suc, ◌+◌, ◌-◌, ◌*◌, ◌%◌, ◌^◌, ◌≡◌, Bool, true, false, ◌&&◌, not, Option, none, some,
  List, [], ◌∷◌, ltb, leb, ◌==◌, if◌then◌else◌,
}
use dpdk_perf.UdpEcho.Vpp.{PoolOps, HashOps}

-- connection_state_t
pub data ConnectionState : Type 0 where
  start attached bound ready failed disconnecting detached : ConnectionState

-- app_session_t, the fields that this program reads or writes.
pub record AppSession : Type 0 where
  pub session_index : ℕ
  pub rx_fifo : ℕ
  pub tx_fifo : ℕ
  pub vpp_evt_q : ℕ
  pub is_dgram : Bool
  pub is_ip4 : Bool
  pub rmt_ip : ℕ
  pub rmt_port : ℕ
  pub lcl_ip : ℕ
  pub lcl_port : ℕ

-- clib_memset(session, 0, sizeof(*session))
abbrev pub zeroed : AppSession
zeroed = record {
  session_index = 0;
  rx_fifo = 0;
  tx_fifo = 0;
  vpp_evt_q = 0;
  is_dgram = false;
  is_ip4 = false;
  rmt_ip = 0;
  rmt_port = 0;
  lcl_ip = 0;
  lcl_port = 0;
}

pub record AcceptedMsg : Type 0 where
  pub handle : ℕ
  pub context : ℕ
  pub vpp_event_queue_address : ℕ
  pub server_rx_fifo : ℕ
  pub server_tx_fifo : ℕ
  pub ip : ℕ
  pub is_ip4 : Bool
  pub port : ℕ

pub record DisconnectedMsg : Type 0 where
  pub handle : ℕ
  pub context : ℕ

pub record ConnectedMsg : Type 0 where
  pub retval : ℕ
  pub server_rx_fifo : ℕ
  pub server_tx_fifo : ℕ
  pub ct_rx_fifo : ℕ
  pub vpp_event_queue_address : ℕ
  pub lcl_ip : ℕ
  pub is_ip4 : Bool
  pub lcl_port : ℕ

pub record BoundMsg : Type 0 where
  pub retval : ℕ
  pub rx_fifo : ℕ
  pub tx_fifo : ℕ
  pub vpp_evt_q : ℕ
  pub lcl_ip : ℕ
  pub lcl_is_ip4 : Bool
  pub lcl_port : ℕ

-- session_event_t by its event_type.
pub data SessionEvent : Type 0 where
  on_bound : BoundMsg → SessionEvent
  on_accepted : AcceptedMsg → SessionEvent
  on_connected : ConnectedMsg → SessionEvent
  on_disconnected : DisconnectedMsg → SessionEvent
  unhandled : ℕ → SessionEvent

-- The control messages sent to VPP: the queue that takes them, handle, context, retval.
pub data Reply : Type 0 where
  accepted_reply : ℕ → ℕ → ℕ → ℕ → Reply
  disconnected_reply : ℕ → ℕ → ℕ → ℕ → Reply

-- ~0 of a 32-bit index.
abbrev pub no_index : ℕ
no_index = 2 ^ 32 - 1

abbrev pub update : (ℕ → ℕ) → ℕ → ℕ → ℕ → ℕ
update f p v q = if p == q then v else f q

-- What session_accepted_handler writes into the session; vpp_evt_q keeps its zero.
abbrev pub accepted_session : AcceptedMsg → ℕ → AppSession
accepted_session mp i = record zeroed {
  session_index = i;
  rx_fifo = mp.server_rx_fifo;
  tx_fifo = mp.server_tx_fifo;
  rmt_ip = mp.ip;
  is_ip4 = mp.is_ip4;
  rmt_port = mp.port;
}

-- What session_bound_handler writes into the session; session_index keeps its zero.
abbrev pub bound_session : BoundMsg → AppSession
bound_session mp = record zeroed {
  rx_fifo = mp.rx_fifo;
  tx_fifo = mp.tx_fifo;
  lcl_ip = mp.lcl_ip;
  is_ip4 = mp.lcl_is_ip4;
  lcl_port = mp.lcl_port;
  vpp_evt_q = mp.vpp_evt_q;
}

module _ (P : PoolOps AppSession) (H : HashOps) where
  open P use {Pool}
  open H use {Hash}

  -- udp_echo_main_t, the fields that the handlers read or write. `client_session_index` is the
  -- field of that name in the FIFO at an address.
  pub record EchoMain : Type 0 where
    pub state : ConnectionState
    pub sessions : Pool
    pub session_index_by_vpp_handles : Hash
    pub vpp_event_queue : ℕ
    pub cut_through_session_index : ℕ
    pub connected_session : ℕ
    pub is_connected : Bool
    pub client_session_index : ℕ → ℕ
    pub sent : List Reply

  -- The one session of the pool that a handler writes.
  abbrev pub put_session : EchoMain → ℕ → AppSession → EchoMain
  put_session utm i s = record utm { sessions = P.write utm.sessions i s }

  -- rx_fifo->client_session_index = tx_fifo->client_session_index = i
  abbrev pub own_fifos : EchoMain → ℕ → ℕ → ℕ → EchoMain
  own_fifos utm rx_fifo tx_fifo i = record utm {
    client_session_index = update (update utm.client_session_index rx_fifo i) tx_fifo i;
  }

  -- session_accepted_handler
  unfoldable pub session_accepted_handler : AcceptedMsg → EchoMain → EchoMain
  session_accepted_handler mp utm =
      let (pool, session_index) = P.get utm.sessions in
      let utm = record utm { vpp_event_queue = mp.vpp_event_queue_address; sessions = pool } in
      let utm = own_fifos utm mp.server_rx_fifo mp.server_tx_fifo session_index in
      let utm = put_session utm session_index (accepted_session mp session_index) in
      record utm {
        session_index_by_vpp_handles =
            H.set utm.session_index_by_vpp_handles mp.handle session_index;
        sent = accepted_reply utm.vpp_event_queue mp.handle mp.context 0 ∷ utm.sent;
        state = ready;
      }

  -- The part of session_disconnected_handler behind its test of p: the queue of the reply is read
  -- from the pool element after pool_put. A queue is its address; the reply to address 0 is kept as one
  -- to a queue of that name, where the program would follow a null pointer.
  abbrev pub drop_session : DisconnectedMsg → ℕ → EchoMain → EchoMain
  drop_session mp i utm =
      let pool = P.put utm.sessions i in
      record utm {
        session_index_by_vpp_handles = H.unset utm.session_index_by_vpp_handles mp.handle;
        sessions = pool;
        sent = disconnected_reply (P.elt pool i).vpp_evt_q mp.handle mp.context 0 ∷ utm.sent;
      }

  -- session_disconnected_handler
  unfoldable pub session_disconnected_handler : DisconnectedMsg → EchoMain → EchoMain
  session_disconnected_handler mp utm = elim (H.get utm.session_index_by_vpp_handles mp.handle) [
    | none ↦ utm
    | some i ↦ drop_session mp i utm
  ]

  -- The cut-through branch of session_connected_handler.
  abbrev pub cut_through : ConnectedMsg → ℕ → AppSession → EchoMain → EchoMain
  cut_through mp i session utm =
      let session = record session { vpp_evt_q = mp.vpp_event_queue_address; is_dgram = false } in
      let utm =
        put_session (record utm { cut_through_session_index = i; state = ready }) i session in
      own_fifos utm session.rx_fifo session.tx_fifo i

  -- The other branch: `remote` is what unformat_uri reads from connect_uri, an address and a port.
  abbrev pub connect_remote : Option (ℕ × ℕ) → ConnectedMsg → ℕ → AppSession → EchoMain → EchoMain
  connect_remote remote mp i session utm =
      let utm = record utm {
        connected_session = i;
        vpp_event_queue = mp.vpp_event_queue_address;
      } in
      let utm = own_fifos utm session.rx_fifo session.tx_fifo i in
      let session = record session {
        lcl_ip = mp.lcl_ip;
        is_ip4 = mp.is_ip4;
        lcl_port = mp.lcl_port;
      } in
      elim remote [
        | none ↦ record (put_session utm i session) { state = failed }
        | some (ip, port) ↦
            record (put_session utm i
              (record session { rmt_ip = ip; rmt_port = port; is_dgram = not utm.is_connected })) {
                state = ready;
              }
      ]

  -- session_connected_handler behind its test of retval. The new pool element is not cleared.
  abbrev pub take_connection : Option (ℕ × ℕ) → ConnectedMsg → EchoMain → EchoMain
  take_connection remote mp utm =
      let (pool, i) = P.get utm.sessions in
      let session = record (P.elt pool i) {
        session_index = i;
        rx_fifo = mp.server_rx_fifo;
        tx_fifo = mp.server_tx_fifo;
      } in
      let utm = record utm { sessions = pool } in
      if mp.ct_rx_fifo == 0
      then connect_remote remote mp i session utm
      else cut_through mp i session utm

  -- session_connected_handler
  unfoldable pub session_connected_handler : Option (ℕ × ℕ) → ConnectedMsg → EchoMain → EchoMain
  session_connected_handler remote mp utm =
      if mp.retval == 0 then take_connection remote mp utm else utm

  -- session_bound_handler behind its test of retval.
  abbrev pub take_bound : BoundMsg → EchoMain → EchoMain
  take_bound mp utm =
      let (pool, session_index) = P.get utm.sessions in
      let utm = own_fifos (record utm { sessions = pool }) mp.rx_fifo mp.tx_fifo session_index in
      record (put_session utm session_index (bound_session mp)) {
        state = if utm.is_connected then bound else ready;
      }

  -- session_bound_handler
  unfoldable pub session_bound_handler : BoundMsg → EchoMain → EchoMain
  session_bound_handler mp utm =
      if mp.retval == 0 then take_bound mp utm else record utm { state = failed }

  -- handle_mq_event
  unfoldable pub handle_mq_event : Option (ℕ × ℕ) → SessionEvent → EchoMain → EchoMain
  unfolding session_bound_handler session_accepted_handler session_connected_handler
      session_disconnected_handler
  handle_mq_event remote (on_bound mp) utm = session_bound_handler mp utm
  handle_mq_event remote (on_accepted mp) utm = session_accepted_handler mp utm
  handle_mq_event remote (on_connected mp) utm = session_connected_handler remote mp utm
  handle_mq_event remote (on_disconnected mp) utm = session_disconnected_handler mp utm
  handle_mq_event remote (unhandled t) utm = utm

  -- The events that the loops of server_handle_event_queue and client_test hand on, in order.
  unfoldable pub handle_all : Option (ℕ × ℕ) → List SessionEvent → EchoMain → EchoMain
  handle_all remote [] utm = utm
  handle_all remote (e ∷ es) utm = handle_all remote es (handle_mq_event remote e utm)
