-- ===== src/VclServer/Loop.antt =====
-- vts_worker_loop of src/vcl-test-server/main.c behind its UDP branch: one epoll event at a time, with
-- vts_server_rx and vts_server_echo. VclServer.Worker decides which events come here, and
-- VclServer.Udp has the counters of the UDP branch.
pub mod Text
use dpdk_perf.Common.{
  ℕ, zero, suc, ◌+◌, ◌-◌, ◌%◌, ◌^◌, Bool, true, false, ◌&&◌, ◌||◌, not, Option, none, some, List,
  [], ◌∷◌, ltb, leb, ◌==◌, if◌then◌else◌, get_elem?, set, length,
}
use dpdk_perf.Common.Int.{ℤ, pos, negsuc}
use dpdk_perf.VclServer.Pool.{Timespec, uni, bi, Cfg, Stats, Conn, conn_pool_alloc}
use dpdk_perf.VclServer.Server.{
  Write, bytes, Worker, TestLib, is_test, vts_handle_cfg, vts_conn_expect_config, vts_new_client,
}

-- strlen of a buffer that may lack its terminator.
unfoldable pub strlen : List ℕ → ℕ
strlen [] = 0
strlen (c ∷ cs) = if c == 0 then 0 else suc (strlen cs)

-- The place of the terminator in vts_server_echo.
abbrev pub terminator : ℕ → ℕ → ℕ
terminator rx_bytes buf_size = if ltb rx_bytes buf_size then rx_bytes else buf_size - 1

-- vts_conn_has_ascii: isascii of the first byte.
unfoldable pub has_ascii : List ℕ → Bool
has_ascii buf = elim buf [ [] ↦ false | c ∷ cs ↦ ltb c 128 ]

-- nbytes of vts_server_echo, and the buffer that it writes from.
unfoldable pub echo_text : ℕ → List ℕ → ℕ × List ℕ
unfolding strlen
echo_text rx_bytes buf =
    let text = set buf (terminator rx_bytes (length buf)) 0 in (strlen text + 1, text)

-- What one call of vts_conn_read gives: its result, the statistics it leaves, whether errno is
-- ECONNRESET, the buffer (and as a configuration), the lengths of the two data segments, and
-- whether VPPCOM_ATTR_GET_NREAD then finds more to read.
pub record Read : Type 0 where
  pub rx_bytes : ℤ
  pub stats : Stats
  pub reset : Bool
  pub buf : List ℕ
  pub rx_cfg : Cfg
  pub segments : ℕ × ℕ
  pub more : Bool

-- An epoll event: data.u32, EPOLLHUP or EPOLLRDHUP, EPOLLIN.
pub record Event : Type 0 where
  pub place : ℕ
  pub hup : Bool
  pub epollin : Bool

-- How the body of the loop ends: with the next event, at `done`, at `fail`, or with an access
-- outside the pool.
pub data Ends : Type 0 where
  next done fail : Worker → Ends
  fault : Ends

abbrev pub listener : ℕ
listener = 2 ^ 32 - 1

-- The answers of the library to the calls of one event.
pub record Answers : Type 0 where
  pub memory : Bool
  pub accepted : ℤ
  pub added : Bool
  pub now : Timespec
  pub reads : List Read

-- What the program is set up with: use_ds, sizeof(vcl_test_cfg_t), VCL_TEST_CFG_CTRL_MAGIC, the
-- state of a new connection, and what vcl_test_write does to the statistics.
pub record Setup : Type 0 where
  pub use_ds : Bool
  pub cfg_size : ℕ
  pub ctrl_magic : ℕ
  pub new_cfg : Cfg
  pub new_buf_size : ℕ
  pub count_write : Stats → ℕ → Stats

module _ (lib : TestLib) (setup : Setup) where
  abbrev pub write_data : ℕ → Conn → Worker → Conn × Worker
  write_data n conn wrk = (
    record conn { stats = setup.count_write conn.stats n },
    record wrk { writes = bytes conn.fd n ∷ wrk.writes },
  )

  -- The writes of vts_server_rx in a bidirectional test.
  abbrev pub write_back : ℕ → Read → Conn → Worker → Conn × Worker
  write_back n r conn wrk =
      if setup.use_ds
      then (let (conn, wrk) = write_data r.segments.0 conn wrk in
          if r.segments.1 == 0 then (conn, wrk) else write_data r.segments.1 conn wrk)
      else write_data n conn wrk

  -- vts_server_rx
  unfoldable pub vts_server_rx : Timespec → ℕ → Read → Conn → Worker → Conn × Worker
  vts_server_rx now n r conn wrk =
      let (conn, wrk) = if is_test conn.cfg.test bi then write_back n r conn wrk else (conn, wrk) in
      (
        if leb conn.cfg.total_bytes conn.stats.rx_bytes
            then record conn { stats = record conn.stats { stop = now } }
            else conn,
        wrk,
      )

  -- vts_server_echo
  unfoldable pub vts_server_echo : ℕ → Read → Conn → Worker → Conn × Worker
  unfolding echo_text
  vts_server_echo n r conn wrk = write_data (echo_text n r.buf).0 conn wrk

  abbrev pub keep : ℕ → Conn × Worker → Worker
  keep i (conn, wrk) = record wrk { conn_pool = set wrk.conn_pool i conn }

  abbrev pub end_if_idle : Worker → Ends
  end_if_idle wrk = if wrk.nfds == 0 then done wrk else next wrk

  -- What follows a successful read of n bytes; `again` is the jump back to read_again.
  unfoldable pub on_data : (Conn → Worker → Ends) → Timespec → ℕ → ℕ → Read → Conn → Worker → Ends
  unfolding has_ascii vts_server_rx vts_server_echo vts_handle_cfg vts_conn_expect_config
  on_data again now i n r conn wrk =
      if vts_conn_expect_config conn && r.rx_cfg.magic == setup.ctrl_magic
      then end_if_idle (vts_handle_cfg lib setup.cfg_size now i conn r.rx_cfg n wrk)
      else if is_test conn.cfg.test uni || is_test conn.cfg.test bi
      then (let (conn, wrk) = vts_server_rx now n r conn wrk in
          let wrk = keep i (conn, wrk) in
          let rest = again conn wrk in if r.more then rest else next wrk)
      else if has_ascii r.buf
      then next (keep i (vts_server_echo n r conn wrk))
      else next wrk

  -- From read_again on, at the connection of place i; the reads that the library gives are a list,
  -- and a loop that outlives it waits for data.
  unfoldable pub read_again : Timespec → ℕ → List Read → Conn → Worker → Ends
  unfolding on_data
  read_again now i [] conn wrk = next wrk
  read_again now i (r ∷ rs) conn wrk = elim r.rx_bytes [
    | negsuc e ↦ if r.reset then fail wrk else next wrk
    | pos zero ↦ if r.reset then fail wrk else next wrk
    | pos (suc m) ↦
        let conn = record conn { stats = r.stats } in
        let wrk = record wrk { conn_pool = set wrk.conn_pool i conn } in
        on_data (read_again now i rs) now i (suc m) r conn wrk
  ]

  -- The body of the loop over the events, with the connection that data.u32 points to.
  unfoldable pub on_conn : Answers → Event → Conn → Worker → Ends
  unfolding read_again
  on_conn a e conn wrk =
      if e.hup
      then end_if_idle
          (record wrk { closed = conn.fd ∷ wrk.closed; nfds = (wrk.nfds + 2 ^ 32 - 1) % 2 ^ 32 })
      else if e.epollin
      then read_again a.now e.place a.reads conn wrk
      else fail wrk

  unfoldable pub on_event : Answers → Event → Worker → Ends
  unfolding on_conn vts_new_client
  on_event a e wrk =
      if e.place == listener && not e.hup
      then next (vts_new_client setup.new_cfg setup.new_buf_size a.memory a.accepted a.added wrk)
      else (elim (get_elem? wrk.conn_pool e.place) [
        | some conn ↦ on_conn a e conn wrk
        | none ↦ fault
      ])
