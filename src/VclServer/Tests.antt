-- ===== src/VclServer/Tests.antt =====
-- The server of src/vcl-test-server/main.c on concrete pools and messages.
use dpdk_perf.Common.{
  ℕ, ◌+◌, ◌-◌, ◌≤◌, ◌<◌, ◌≡◌, refl, true, false, some, List, [], ◌∷◌, arith, length, get_elem?,
}
use dpdk_perf.Common.Int.{pos}
use dpdk_perf.VclServer.Pool.{uni, Cfg, Conn, no_stats, no_time, new_conn, conn_pool_alloc}
use dpdk_perf.VclServer.Pool.Alloc.{Alloc, conn_pool_alloc-Alloc}
use dpdk_perf.VclServer.Server.{Worker, reply, TestLib, vts_handle_cfg}
use dpdk_perf.VclServer.Server.Replies.{vts_handle_cfg-Answers}
use dpdk_perf.VclServer.Loop.{terminator, echo_text, Setup}
use dpdk_perf.VclServer.Loop.Text.{echo_text_bounds}

abbrev cfg : Cfg
cfg = record {
  magic = 42;
  test = uni;
  ctrl_handle = 9;
  num_writes = 3;
  rxbuf_size = 64;
  txbuf_size = 64;
  total_bytes = 192;
  verbose = false;
}

abbrev busy : Conn
busy = record { is_alloc = true; fd = 7; buf_size = 64; cfg = cfg; stats = no_stats }

abbrev idle : Conn
idle = new_conn cfg 64

-- A library that counts bytes and compares seconds.
abbrev lib : TestLib
lib = record {
  accumulate = λ sum tc. record sum {
    rx_bytes = sum.rx_bytes + tc.rx_bytes;
    tx_bytes = sum.tx_bytes + tc.tx_bytes;
  };
  comp_tspec = λ a b. pos 0;
  buf_alloc = λ c n. (c, c.rxbuf_size);
  delay_disconnect = 1;
}

abbrev wrk : Worker
wrk = record { conn_pool = busy ∷ idle ∷ []; nfds = 2; writes = []; closed = []; results = [] }

abbrev full : Worker
full = record wrk { conn_pool = busy ∷ busy ∷ [] }

abbrev setup : Setup
setup = record {
  use_ds = false;
  cfg_size = 100;
  ctrl_magic = 42;
  new_cfg = cfg;
  new_buf_size = 64;
  count_write = λ s n. record s { tx_bytes = s.tx_bytes + n };
}

conn_pool_alloc-Alloc_example :
    Alloc cfg 64 true full.conn_pool (conn_pool_alloc cfg 64 true full.conn_pool)
conn_pool_alloc-Alloc_example = conn_pool_alloc-Alloc cfg 64 true full.conn_pool

vts_handle_cfg-Answers_example :
    (c : Cfg) × ((vts_handle_cfg lib 100 no_time 0 busy cfg 100 wrk).writes ≡ reply 7 c ∷ [])
vts_handle_cfg-Answers_example = vts_handle_cfg-Answers lib no_time 0 busy cfg wrk 100 100

-- "abc" in a buffer of five bytes.
abbrev buf : List ℕ
buf = b'a' ∷ b'b' ∷ b'c' ∷ 7 ∷ 7 ∷ []

four : (echo_text 3 buf).0 ≡ 4
unfolding echo_text
four = refl

echo_text_bounds_example :
    (terminator 3 5 < 5)
    × ((echo_text 3 buf).0 ≤ 4)
    × ((echo_text 3 buf).0 ≤ length (echo_text 3 buf).1)
    × (get_elem? (echo_text 3 buf).1 ((echo_text 3 buf).0 - 1) ≡ some 0)
echo_text_bounds_example = echo_text_bounds 3 buf (omega arith)
