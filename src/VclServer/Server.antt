-- ===== src/VclServer/Server.antt =====
-- The message handling of a worker in src/vcl-test-server/main.c. What vcl_test_write,
-- vcl_test_buf_alloc, vcl_test_stats_accumulate, the clock and the session layer do is a parameter
-- or an argument; what the server writes to a session is kept in order, newest first.
pub mod Replies
use dpdk_perf.Common.{
  ℕ, zero, suc, ◌+◌, ◌-◌, ◌%◌, ◌^◌, Bool, true, false, ◌&&◌, ◌||◌, Option, none, some, List, [],
  ◌∷◌, ltb, leb, ◌==◌, if◌then◌else◌, get_elem?, set, length,
}
use dpdk_perf.Common.Int.{ℤ, pos, negsuc, is_negative, sub_nat}
use dpdk_perf.VclServer.Pool.{
  Timespec, TestType, none_type, echo, uni, bi, exit, other_type, Cfg, Stats, no_stats, Conn,
  conn_pool_alloc, conn_pool_free,
}

-- What the server writes to a session: a configuration, or `bytes` of data.
pub data Write : Type 0 where
  reply : ℕ → Cfg → Write
  bytes : ℕ → ℕ → Write

-- The part of vcl_test_server_worker_t and of the session layer that the handlers change: the
-- sessions closed and the statistics reported are kept newest first.
pub record Worker : Type 0 where
  pub conn_pool : List Conn
  pub nfds : ℕ
  pub writes : List Write
  pub closed : List ℕ
  pub results : List Stats

-- vcl_test_stats_accumulate, vcl_comp_tspec, VCL_TEST_DELAY_DISCONNECT, and what
-- vcl_test_buf_alloc makes of a configuration and the size of the old buffer.
pub record TestLib : Type 0 where
  pub accumulate : Stats → Stats → Stats
  pub comp_tspec : Timespec → Timespec → ℤ
  pub buf_alloc : Cfg → ℕ → Cfg × ℕ
  pub delay_disconnect : ℕ

-- ~0 of the 32-bit ctrl_handle.
abbrev pub no_handle : ℕ
no_handle = 2 ^ 32 - 1

abbrev pub is_test : TestType → TestType → Bool
is_test echo echo = true
is_test bi bi = true
is_test uni uni = true
is_test _ _ = false

module _ (lib : TestLib) where
  -- sync_config_and_reply: the new connection, and what it writes.
  unfoldable pub sync_config_and_reply : Conn → Cfg → Conn × Write
  sync_config_and_reply conn rx_cfg =
      let (cfg, buf_size) = lib.buf_alloc rx_cfg conn.buf_size in
      let cfg = record cfg { txbuf_size = cfg.rxbuf_size } in
      (record conn { cfg = cfg; buf_size = buf_size }, reply conn.fd cfg)

  -- The body of the loop in vts_server_start_stop, at statistics tc of the test; `own` is whether
  -- they are conn's, which then show what the first call has added.
  unfoldable pub gather : Bool → Stats → Stats → Stats
  gather own sum tc =
      let sum = lib.accumulate sum tc in
      let tc = if own then sum else tc in
      let stop = if is_negative (lib.comp_tspec sum.stop tc.stop) then tc.stop else sum.stop in
      record sum { stop = record stop { tv_sec = sub_nat stop.tv_sec lib.delay_disconnect } }

  -- for (i = 0; i < wrk->conn_pool_size; i++), from i on. The connection at place `own` is conn
  -- itself, whose statistics are the sum.
  unfoldable pub gather_all : ℕ → ℕ → ℕ → List Conn → Stats → Stats
  unfolding gather
  gather_all fd own i [] sum = sum
  gather_all fd own i (tc ∷ pool) sum =
      let tc_stats = if i == own then sum else tc.stats in
      gather_all fd own (i + 1) pool
        (if tc.cfg.ctrl_handle == fd then gather (i == own) sum tc_stats else sum)

  -- The connection at a place and a message written.
  abbrev pub put_conn : Worker → ℕ → Conn → Write → Worker
  put_conn wrk own conn w = record wrk {
    conn_pool = set wrk.conn_pool own conn;
    writes = w ∷ wrk.writes;
  }

  -- vts_server_start_stop: `own` is the place of conn, `now` the time read.
  unfoldable pub vts_server_start_stop : Timespec → ℕ → Conn → Cfg → Worker → Worker
  unfolding sync_config_and_reply gather_all gather
  vts_server_start_stop now own conn rx_cfg wrk =
      if rx_cfg.ctrl_handle == conn.fd
      then (let sum = gather_all conn.fd own 0 wrk.conn_pool conn.stats in
          let (conn', w) = sync_config_and_reply conn rx_cfg in
          record (put_conn wrk own (record conn' { stats = no_stats }) w) {
            results = sum ∷ wrk.results;
          })
      else (let cfg =
            if rx_cfg.ctrl_handle == no_handle
            then record rx_cfg { ctrl_handle = conn.fd }
            else rx_cfg in
          let (conn', w) = sync_config_and_reply conn cfg in
          put_conn wrk own (record conn' { stats = record no_stats { start = now } }) w)

  -- vts_handle_cfg behind the test of the message's size.
  unfoldable pub handle_test : Timespec → ℕ → Conn → Cfg → TestType → Worker → Worker
  unfolding sync_config_and_reply vts_server_start_stop
  handle_test now own conn rx_cfg none_type wrk =
      let (conn', w) = sync_config_and_reply conn rx_cfg in put_conn wrk own conn' w
  handle_test now own conn rx_cfg echo wrk =
      let (conn', w) = sync_config_and_reply conn rx_cfg in put_conn wrk own conn' w
  handle_test now own conn rx_cfg bi wrk = vts_server_start_stop now own conn rx_cfg wrk
  handle_test now own conn rx_cfg uni wrk = vts_server_start_stop now own conn rx_cfg wrk
  handle_test now own conn rx_cfg exit wrk =
      let conn' = record conn { stats = record conn.stats { stop = now } } in
      record wrk {
        conn_pool = set wrk.conn_pool own (conn_pool_free conn');
        closed = conn.fd ∷ wrk.closed;
        nfds = (wrk.nfds + 2 ^ 32 - 1) % 2 ^ 32;
      }
  handle_test now own conn rx_cfg (other_type t) wrk = wrk

  -- vts_handle_cfg; `cfg_size` is sizeof(*rx_cfg).
  unfoldable pub vts_handle_cfg : ℕ → Timespec → ℕ → Conn → Cfg → ℕ → Worker → Worker
  unfolding handle_test conn_pool_free
  vts_handle_cfg cfg_size now own conn rx_cfg rx_bytes wrk =
      if rx_bytes == cfg_size
      then handle_test now own conn rx_cfg rx_cfg.test wrk
      else (let cfg = record conn.cfg { rxbuf_size = 0; num_writes = 0 } in
          put_conn wrk own (record conn { cfg = cfg }) (reply conn.fd cfg))

-- vts_conn_expect_config
unfoldable pub vts_conn_expect_config : Conn → Bool
vts_conn_expect_config conn =
    if is_test conn.cfg.test echo
    then true
    else ltb conn.stats.rx_bytes 128 || ltb conn.cfg.total_bytes conn.stats.rx_bytes

-- conn->fd = client_fd, at a place of the pool.
unfoldable pub update_fd : List Conn → ℕ → ℕ → List Conn
update_fd [] i fd = []
update_fd (c ∷ pool) zero fd = record c { fd = fd } ∷ pool
update_fd (c ∷ pool) (suc i) fd = c ∷ update_fd pool i fd

-- vts_new_client: `accepted` is what vppcom_session_accept returns, `added` whether
-- vppcom_epoll_ctl succeeds.
module _ (cfg : Cfg) (buf_size : ℕ) where
  abbrev pub add_client : ℕ → Bool → ℕ → Worker → Worker
  add_client client_fd added i wrk =
      let wrk = record wrk { conn_pool = update_fd wrk.conn_pool i client_fd } in
      if added then record wrk { nfds = (wrk.nfds + 1) % 2 ^ 32 } else wrk

  -- From the test of conn on, for what conn_pool_alloc gave.
  abbrev pub place_client : Option ℕ × List Conn → ℤ → Bool → Worker → Worker
  place_client (none, pool) accepted added wrk = record wrk { conn_pool = pool }
  place_client (some i, pool) (negsuc e) added wrk = record wrk { conn_pool = pool }
  place_client (some i, pool) (pos client_fd) added wrk =
      add_client client_fd added i (record wrk { conn_pool = pool })

  unfoldable pub vts_new_client : Bool → ℤ → Bool → Worker → Worker
  unfolding conn_pool_alloc
  vts_new_client memory accepted added wrk =
      place_client (conn_pool_alloc cfg buf_size memory wrk.conn_pool) accepted added wrk
