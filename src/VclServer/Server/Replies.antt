-- ===== src/VclServer/Server/Replies.antt =====
-- What vts_handle_cfg of src/vcl-test-server/main.c answers.
use dpdk_perf.Common.{ℕ, ◌≡◌, refl, Bool, true, false, List, ◌∷◌, ◌==◌, Bool-cases, inl, inr}
use dpdk_perf.VclServer.Pool.{
  Timespec, TestType, none_type, echo, uni, bi, exit, other_type, Cfg, Conn,
}
use dpdk_perf.VclServer.Server.{
  TestLib, Worker, Write, reply, vts_server_start_stop, handle_test, vts_handle_cfg,
}

-- The requests that are answered: those of a wrong size, and those for a test.
abbrev pub is_answered : Bool → TestType → Bool
is_answered false t = true
is_answered true none_type = true
is_answered true echo = true
is_answered true uni = true
is_answered true bi = true
is_answered true exit = false
is_answered true (other_type t) = false

-- One more message, a reply to the session fd, or none.
abbrev pub Answers : Bool → ℕ → List Write → List Write → Type 0
Answers true fd before after = (cfg : Cfg) × (after ≡ reply fd cfg ∷ before)
Answers false fd before after = after ≡ before

module _ (lib : TestLib) (now : Timespec) (own : ℕ) (conn : Conn) (rx_cfg : Cfg)
    (wrk : Worker) where
  start_stop-Answers :
      Answers true conn.fd wrk.writes (vts_server_start_stop lib now own conn rx_cfg wrk).writes
  unfolding vts_server_start_stop
  start_stop-Answers = elim (Bool-cases (rx_cfg.ctrl_handle == conn.fd)) [
    | inl e ↦ rw e (_, refl)
    | inr e ↦ rw e (_, refl)
  ]

  handle_test-Answers :
      (t : TestType)
      → Answers
          (is_answered true t)
          conn.fd
          wrk.writes
          (handle_test lib now own conn rx_cfg t wrk).writes
  unfolding handle_test
  handle_test-Answers none_type = (_, refl)
  handle_test-Answers echo = (_, refl)
  handle_test-Answers uni = start_stop-Answers
  handle_test-Answers bi = start_stop-Answers
  handle_test-Answers exit = refl
  handle_test-Answers (other_type t) = refl

  -- A configuration message is answered by exactly one reply, to the session that it came from, if
  -- its size is wrong or it asks for a test; a request to exit and an unknown one get none.
  pub vts_handle_cfg-Answers :
      (cfg_size rx_bytes : ℕ)
      → Answers
          (is_answered (rx_bytes == cfg_size) rx_cfg.test)
          conn.fd
          wrk.writes
          (vts_handle_cfg lib cfg_size now own conn rx_cfg rx_bytes wrk).writes
  unfolding vts_handle_cfg
  vts_handle_cfg-Answers cfg_size rx_bytes = elim (Bool-cases (rx_bytes == cfg_size)) [
    | inl e ↦ rw e (handle_test-Answers rx_cfg.test)
    | inr e ↦ rw e (_, refl)
  ]
