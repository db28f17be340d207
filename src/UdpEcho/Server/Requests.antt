-- ===== src/UdpEcho/Server/Requests.antt =====
-- udp_server_test of src/udp-echo/main.c: what it has served and asked for when it ends.
use dpdk_perf.Common.{
  Bool-cases, inl, inr, ℕ, ◌≡◌, refl, Bool, Option, List, [], ◌∷◌, ◌++◌, All, if◌then◌else◌,
}
use dpdk_perf.Common.Int.{ℤ, pos, negsuc}
use dpdk_perf.UdpEcho.Vpp.{PoolOps, HashOps}
use dpdk_perf.UdpEcho.Session.{ConnectionState, start, bound, ready, AppSession}
use dpdk_perf.UdpEcho.Control.{wait_for_state_change}
use dpdk_perf.UdpEcho.Server.{
  Turn, Served, Ends, waiting, busy, returned, Request, attach, bind, unbind, detach, Outcome,
  timed_out, running, complete, wait_until_ready, server_handle_event_queue, udp_server_test,
}
use dpdk_perf.UdpEcho.Server.Queue.{IsLawful, IsServing, Serves, handle_events-Serves}

module _ (P : PoolOps AppSession) (H : HashOps) (have_return : Bool) where
  -- Also while it waits for STATE_READY.
  queue-Serves :
      (rx_buf_len : ℕ) (remote : Option (ℕ × ℕ)) (states : List ConnectionState) (ts : List Turn)
      (s : Served P H)
      → All IsLawful ts
      → IsServing P H have_return s
      → Serves P H have_return
          (server_handle_event_queue P H have_return rx_buf_len remote states ts s)
  unfolding server_handle_event_queue
  queue-Serves rx_buf_len remote states ts s law v = elim (Bool-cases (wait_until_ready states)) [
    | inl e ↦
        rw (server_handle_event_queue, e)
          (handle_events-Serves P H have_return rx_buf_len remote ts s law v)
    | inr e ↦ rw (server_handle_event_queue, e) v
  ]

  module _ (my_client_index fifo_size : ℕ) (listen_uri : List ℕ) where
    abbrev asked : List Request
    asked = attach my_client_index fifo_size ∷ bind my_client_index listen_uri ∷ []

    -- The requests made by then, and what the server keeps to; one that gives up its wait makes
    -- no other request.
    abbrev pub OutcomeServes : Outcome P H → Type 0
    OutcomeServes (timed_out rs) = Unit {0}
    OutcomeServes (running e rs) = Serves P H have_return e × (rs ≡ asked)
    OutcomeServes (complete s rs) =
        IsServing P H have_return s
        × (rs ≡ asked ++ (unbind my_client_index listen_uri ∷ detach my_client_index ∷ []))

    pub udp_server_test-Serves :
        (rx_buf_len : ℕ) (remote : Option (ℕ × ℕ)) (before meanwhile after : List ConnectionState)
        (ts : List Turn) (s : Served P H)
        → All IsLawful ts
        → IsServing P H have_return s
        → OutcomeServes (
            udp_server_test P H have_return rx_buf_len remote my_client_index fifo_size listen_uri
              before meanwhile ts after s)
    unfolding udp_server_test
    udp_server_test-Serves rx_buf_len remote before meanwhile after ts s law v =
        go (wait_for_state_change (if s.utm.is_connected then bound else ready) before)
          (server_handle_event_queue P H have_return rx_buf_len remote meanwhile ts s)
          (queue-Serves rx_buf_len remote meanwhile ts s law v) (wait_for_state_change start after)
      where
        go :
            (r : ℤ) (o : Ends P H)
            → Serves P H have_return o
            → (r' : ℤ)
            → OutcomeServes (elim r [
              | negsuc e ↦ timed_out asked
              | pos e ↦ (elim o [
                | returned s' ↦
                    let unbinding = asked ++ (unbind my_client_index listen_uri ∷ []) in
                    elim r' [
                      | negsuc e' ↦ timed_out unbinding
                      | pos e' ↦ complete s' (unbinding ++ (detach my_client_index ∷ []))
                    ]
                | waiting s' ↦ running (waiting s') asked
                | busy s' ↦ running (busy s') asked
              ])
            ])
        go (negsuc e) o w r' = tt
        go (pos e) (waiting s') w r' = (w, refl)
        go (pos e) (busy s') w r' = (w, refl)
        go (pos e) (returned s') w (negsuc e') = tt
        go (pos e) (returned s') w (pos e') = (w, refl)
