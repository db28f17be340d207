-- ===== src/UdpEcho/Main/Whole.antt =====
-- The client and the server of src/udp-echo/main.c from the command line on.
use dpdk_perf.Common.{
  ℕ, ◌*◌, ◌^◌, ◌<◌, ◌≤◌, ◌≡◌, ◌≢◌, refl, true, false, some, List, [], ◌∷◌, ◌++◌, All, length, arith,
}
use dpdk_perf.Common.Latest.{given, latest}
use dpdk_perf.UdpEcho.Vpp.{PoolOps, HashOps}
use dpdk_perf.UdpEcho.Session.{attached, AppSession, ConnectedMsg, no_index}
use dpdk_perf.UdpEcho.Control.Wait.{Reaches}
use dpdk_perf.UdpEcho.Send.Stream.{IsEager}
use dpdk_perf.UdpEcho.Options.{
  Opt, Config, chroot_prefix, uri, segment_size_m, segment_size_g, mbytes, fifo_size, server,
  client, no_return, other, defaults,
}
use dpdk_perf.UdpEcho.Options.Settled.{is_other, role, bytes_of, IsWord, settled, on_opts-settled}
use dpdk_perf.UdpEcho.Client.Connects.{IsForClient, first_connection, IsFresh}
use dpdk_perf.UdpEcho.Client.Delivers.{IsDelivered, all_to_send, client_test-IsDelivered}
use dpdk_perf.UdpEcho.Client.{client_test}
use dpdk_perf.UdpEcho.Server.{Outcome, Served, udp_server_test}
use dpdk_perf.UdpEcho.Server.Queue.{IsLawful}
use dpdk_perf.UdpEcho.Server.Requests.{OutcomeServes, udp_server_test-Serves}
use dpdk_perf.UdpEcho.Main.{
  udp_echo_server, udp_echo_client, Vpp, connect_to_vpp, remote_of, set_up, ClientRun, ServerRun,
  Exit, client_ran, server_ran, run, main, preallocate, rx_buf_len,
}

-- The number of bytes stays below 2 ^ 64.
bytes_small : (os : List Opt) (n : ℕ) → All IsWord os → n < 2 ^ 64 → latest bytes_of n os < 2 ^ 64
bytes_small [] n h l = l
bytes_small (chroot_prefix p ∷ os) n (h, hs) l = bytes_small os n hs l
bytes_small (uri u ∷ os) n (h, hs) l = bytes_small os n hs l
bytes_small (segment_size_m k ∷ os) n (h, hs) l = bytes_small os n hs l
bytes_small (segment_size_g k ∷ os) n (h, hs) l = bytes_small os n hs l
bytes_small (mbytes k ∷ os) n (h, hs) l = bytes_small os (k * 2 ^ 20) hs (omega arith)
bytes_small (fifo_size k ∷ os) n (h, hs) l = bytes_small os n hs l
bytes_small (server ∷ os) n (h, hs) l = bytes_small os n hs l
bytes_small (client ∷ os) n (h, hs) l = bytes_small os n hs l
bytes_small (no_return ∷ os) n (h, hs) l = bytes_small os n hs l
bytes_small (other ∷ os) n (h, hs) l = bytes_small os n hs l

module _ (P : PoolOps AppSession) (H : HashOps) where
  -- main has run the client, with what the options say, and it has delivered its bytes.
  pub data HasDelivered (my_client_index : ℕ) (config : Config) (mp : ConnectedMsg)
      : Exit P H → Type 0 where
    has_delivered :
        (o : dpdk_perf.UdpEcho.Client.Ends P H)
        → IsDelivered P H my_client_index config.fifo_size
            (config.uri ++ (0 ∷ []))
            mp
            config.bytes_to_send
            o
        → HasDelivered my_client_index config mp (client_ran o)

  set_up-IsFresh :
      (vpp : Vpp) (u : List ℕ) → (P.get P.empty).1 ≢ no_index → IsFresh P H (set_up P H vpp u)
  set_up-IsFresh vpp u room = record {
    empty = P.elts-empty;
    no_handles = H.get-empty;
    not_failed = refl;
    no_cut_through = refl;
    has_room = room;
  }

  run_client :
      (vpp : Vpp) (c : ClientRun P H) (s : ServerRun P H) (config : Config)
      → config.i_am_server ≡ false
      → vpp.connects udp_echo_client ≡ true
      → let u = config.uri ++ (0 ∷ []) in
        run P H vpp c s config
        ≡ client_ran (
            client_test P H
              (remote_of vpp u)
              vpp.my_client_index
              config.fifo_size
              u
              c.states
              c.turns
              c.rounds
              (set_up P H vpp u)
              (all_to_send config.bytes_to_send))
  unfolding run connect_to_vpp
  run_client vpp c s config is_client connected =
      rw (run, is_client, connect_to_vpp, connected, is_client) refl

  -- Run as a client, with known options whose numbers fit a u32 and connected to VPP: if
  -- STATE_ATTACHED is reached, VPP sends only events for a client and makes a connection before the
  -- time is up, and in each round the FIFO has room, takes some of the bytes offered and nobody stops
  -- the client, then main comes to its end with as many rounds as there are bytes to send. It has
  -- asked to attach, to connect to the URI of the options and to detach, in this order, and on the
  -- FIFO of the connection it has sent exactly the first bytes of the pattern, as many as the last
  -- option mbytes says, or 1024. A new pool gives an index other than ~0 first.
  pub main_client-HasDelivered :
      (vpp : Vpp) (c : ClientRun P H) (s : ServerRun P H) (os : List Opt) (mp : ConnectedMsg)
      → All IsWord os
      → given is_other os ≡ false
      → latest role true os ≡ false
      → vpp.connects udp_echo_client ≡ true
      → (P.get P.empty).1 ≢ no_index
      → Reaches attached c.states
      → All IsForClient c.turns
      → first_connection c.turns ≡ some (some mp)
      → All IsEager c.rounds
      → latest bytes_of 1024 os ≤ length c.rounds
      → HasDelivered vpp.my_client_index (settled os defaults) mp (main P H vpp c s os)
  unfolding main
  main_client-HasDelivered vpp c s os mp words known is_client connected room reached for_client
        made eager enough =
      let config = settled os defaults in
      let u = config.uri ++ (0 ∷ []) in
      rw
        (
          main,
          on_opts-settled os defaults words,
          known,
          run_client vpp c s config is_client connected,
        )
        (has_delivered _ (
          client_test-IsDelivered P H (remote_of vpp u) vpp.my_client_index config.fifo_size u
            c.states c.turns c.rounds (set_up P H vpp u) mp config.bytes_to_send
            (set_up-IsFresh vpp u room) reached for_client made eager
            (bytes_small os 1024 words (omega arith)) enough))

  -- main has run the server, which serves from the sessions that main has left it.
  pub data HasServed (my_client_index : ℕ) (config : Config) : Exit P H → Type 0 where
    has_served :
        (o : Outcome P H)
        → OutcomeServes P H config.have_return my_client_index config.fifo_size
            (config.uri ++ (0 ∷ []))
            o
        → HasServed my_client_index config (server_ran o)

  abbrev first_served : Vpp → List ℕ → Served P H
  first_served vpp u =
      let utm = set_up P H vpp u in
      record {
        utm = record utm { sessions = preallocate P H 200000 utm.sessions };
        echoes = [];
        printed = [];
      }

  run_server :
      (vpp : Vpp) (c : ClientRun P H) (s : ServerRun P H) (config : Config)
      → config.i_am_server ≡ true
      → vpp.connects udp_echo_server ≡ true
      → let u = config.uri ++ (0 ∷ []) in
        run P H vpp c s config
        ≡ server_ran (
            udp_server_test P H config.have_return rx_buf_len
              (remote_of vpp [])
              vpp.my_client_index
              config.fifo_size
              u
              s.before
              s.meanwhile
              s.turns
              s.after
              (first_served vpp u))
  unfolding run connect_to_vpp
  run_server vpp c s config is_server connected =
      rw (run, is_server, connect_to_vpp, connected, is_server) refl

  -- Run as a server, with known options whose numbers fit a u32 and connected to VPP, main keeps to
  -- this over any sequence of failures of the queue, session events and bytes that arrive, fewer than
  -- 2 ^ 32 in a FIFO, if no call gives or takes more than it is asked for and nobody stops the server
  -- within an echo: every handle leads to a live session that carries its own index, no two to the
  -- same one, and each echo that has ended took all the bytes that were in the FIFO and, unless there
  -- is an option no-return, sent exactly these, in order. A server that has come to its end has asked
  -- to attach, to bind, to unbind and to detach, in this order.
  pub main_server-HasServed :
      (vpp : Vpp) (c : ClientRun P H) (s : ServerRun P H) (os : List Opt)
      → All IsWord os
      → given is_other os ≡ false
      → latest role true os ≡ true
      → vpp.connects udp_echo_server ≡ true
      → All IsLawful s.turns
      → HasServed vpp.my_client_index (settled os defaults) (main P H vpp c s os)
  unfolding main
  main_server-HasServed vpp c s os words known is_server connected law =
      let config = settled os defaults in
      let u = config.uri ++ (0 ∷ []) in
      rw
        (
          main,
          on_opts-settled os defaults words,
          known,
          run_server vpp c s config is_server connected,
        )
        (has_served _ (
          udp_server_test-Serves P H config.have_return vpp.my_client_index config.fifo_size u
            rx_buf_len (remote_of vpp []) s.before s.meanwhile s.after s.turns (first_served vpp u)
            law
            (record {
              tracked = record {
                leads = λ k i e. absurd (ground (arith, H.get-empty k, e));
                apart = λ j k i e e'. absurd (ground (arith, H.get-empty k, e'));
              };
              answered = tt;
            })))
