-- ===== src/UdpEcho/Client/Delivers.antt =====
-- The client of src/udp-echo/main.c from its first request to its last.
use dpdk_perf.Common.{
  ℕ, ◌^◌, ◌<◌, ◌≤◌, ◌≡◌, refl, subst, Bool, Option, some, List, [], ◌∷◌, All, length, arith,
}
use dpdk_perf.UdpEcho.Vpp.{PoolOps, HashOps}
use dpdk_perf.UdpEcho.Session.{ConnectionState, attached, AppSession, ConnectedMsg, EchoMain}
use dpdk_perf.UdpEcho.Control.Wait.{Reaches, wait_for_state_change_lem}
use dpdk_perf.UdpEcho.Send.{Transfer, Answer}
use dpdk_perf.UdpEcho.Send.Ramp.{ramp}
use dpdk_perf.UdpEcho.Send.Stream.{IsStream, IsEager, send_loop_total}
use dpdk_perf.UdpEcho.Client.{
  attach, connect, detach, Turn, wait_for_session, client_send_data, client_test, Ends, sent_on,
}
use dpdk_perf.UdpEcho.Client.Connects.{
  IsForClient, first_connection, IsFresh, Settles, wait_for_session-Settles,
}

-- A client that has still to send `total` bytes.
abbrev pub all_to_send : ℕ → Transfer
all_to_send total = record { bytes_to_send = total; bytes_sent = 0; wire = [] }

nothing_sent : (total : ℕ) → IsStream total (all_to_send total)
unfolding ramp
nothing_sent total = record { conserved = omega arith; pattern = refl }

module _ (P : PoolOps AppSession) (H : HashOps) where
  -- The client has attached, connected and asked to be detached, in this order, and the first
  -- `total` bytes of the pattern are on the FIFO that the connection has for sending.
  pub data IsDelivered (my_client_index fifo_size : ℕ) (uri : List ℕ) (mp : ConnectedMsg)
      (total : ℕ) : Ends P H → Type 0 where
    delivered :
        (sent : Transfer) (u : EchoMain P H)
        → sent.bytes_to_send ≡ 0
        → sent.bytes_sent ≡ total
        → sent.wire ≡ ramp 0 total
        → IsDelivered my_client_index fifo_size uri mp total (
            sent_on
              (mp.server_tx_fifo, sent)
              u
              (attach my_client_index fifo_size
                ∷ connect my_client_index uri
                ∷ detach my_client_index
                ∷ []))

  -- If STATE_ATTACHED is reached, VPP makes a connection before the time is up, and in each round
  -- the FIFO has room, takes some of the bytes offered and nobody stops the client, then client_test
  -- comes to its end with as many rounds as it has bytes to send, fewer than 2 ^ 64: it has asked to
  -- attach, to connect and to detach, in this order, and sent exactly the first bytes of the pattern,
  -- all of them, on the FIFO of the connection. It starts from a state that has not failed, without
  -- sessions, handles and cut-through session, where the next free index of the pool is not ~0.
  pub client_test-IsDelivered :
      (remote : Option (ℕ × ℕ)) (my_client_index fifo_size : ℕ) (uri : List ℕ)
      (states : List ConnectionState) (ts : List Turn) (rounds : List (Bool × Answer))
      (utm : EchoMain P H) (mp : ConnectedMsg) (total : ℕ)
      → IsFresh P H utm
      → Reaches attached states
      → All IsForClient ts
      → first_connection ts ≡ some (some mp)
      → All IsEager rounds
      → total < 2 ^ 64
      → total ≤ length rounds
      → IsDelivered my_client_index fifo_size uri mp total (
          client_test P H remote my_client_index fifo_size uri states ts rounds utm
            (all_to_send total))
  unfolding client_test client_send_data
  client_test-IsDelivered remote my_client_index fifo_size uri states ts rounds utm mp total v
        reached for_client made eager bound enough =
      let utm' = record utm { state = attached } in
      let v' : IsFresh P H utm' = record {
        empty = v.empty;
        no_handles = v.no_handles;
        not_failed = refl;
        no_cut_through = v.no_cut_through;
        has_room = v.has_room;
      } in
      let (u, e, c) : Settles P H utm' (some (some mp)) (wait_for_session P H remote ts utm') =
        subst (λ o. Settles P H utm' o (wait_for_session P H remote ts utm')) made
          (wait_for_session-Settles P H remote ts utm' v' for_client) in
      let (sent, e', none_left, all, wire) =
        send_loop_total total rounds (all_to_send total) bound eager (nothing_sent total) enough in
      rw
        (
          client_test,
          (wait_for_state_change_lem attached states).1 reached,
          e,
          client_send_data,
          e',
          c.tx_fifo,
        )
        (delivered sent u none_left all wire)
