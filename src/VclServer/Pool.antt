-- ===== src/VclServer/Pool.antt =====
-- The connection pool of a worker in src/vcl-test-server/main.c. The test library
-- (vcl_test_cfg_t, vcl_test_stats_t, the buffers) is not part of the repository: the state that
-- vcl_test_cfg_init and vcl_test_buf_alloc leave is an argument of conn_pool_expand.
pub mod Alloc
pub mod Used
use dpdk_perf.Common.{
  ℕ, zero, suc, ◌+◌, ◌*◌, Bool, true, false, Option, none, some, List, [], ◌∷◌, ◌++◌, map,
  if◌then◌else◌, length, replicate,
}
use dpdk_perf.Common.Int.{ℤ, pos}

-- VCL_TEST_TYPE_*, and any other number.
pub data TestType : Type 0 where
  none_type echo uni bi exit : TestType
  other_type : ℕ → TestType

-- The fields of vcl_test_cfg_t that the server reads or writes.
pub record Cfg : Type 0 where
  pub magic : ℕ
  pub test : TestType
  pub ctrl_handle : ℕ
  pub num_writes : ℕ
  pub rxbuf_size : ℕ
  pub txbuf_size : ℕ
  pub total_bytes : ℕ
  pub verbose : Bool

-- struct timespec
pub record Timespec : Type 0 where
  pub tv_sec : ℤ
  pub tv_nsec : ℕ

-- The fields of vcl_test_stats_t that the server reads or writes.
pub record Stats : Type 0 where
  pub rx_bytes : ℕ
  pub tx_bytes : ℕ
  pub start : Timespec
  pub stop : Timespec

abbrev pub no_time : Timespec
no_time = record { tv_sec = pos 0; tv_nsec = 0 }

abbrev pub no_stats : Stats
no_stats = record { rx_bytes = 0; tx_bytes = 0; start = no_time; stop = no_time }

-- vcl_test_server_conn_t. `buf_size` is that of the receive buffer.
pub record Conn : Type 0 where
  pub is_alloc : Bool
  pub fd : ℕ
  pub buf_size : ℕ
  pub cfg : Cfg
  pub stats : Stats

-- The body of the loop in conn_pool_expand: memset, vcl_test_cfg_init and vcl_test_buf_alloc.
-- The arguments are what the last two leave.
unfoldable pub new_conn : Cfg → ℕ → Conn
new_conn cfg buf_size = record {
  is_alloc = false;
  fd = 0;
  buf_size = buf_size;
  cfg = record cfg { txbuf_size = cfg.rxbuf_size };
  stats = no_stats;
}

module _ (cfg : Cfg) (buf_size : ℕ) where
  -- conn_pool_expand: `memory` is whether realloc gives the block.
  unfoldable pub conn_pool_expand : Bool → ℕ → List Conn → List Conn
  unfolding new_conn
  conn_pool_expand memory expand_size pool =
      if memory then pool ++ replicate expand_size (new_conn cfg buf_size) else pool

  -- The loop of conn_pool_alloc, from place i on: the place taken, and the pool.
  unfoldable pub take_free : ℕ → List Conn → Option (ℕ × List Conn)
  take_free i [] = none
  take_free i (conn ∷ pool) =
      if conn.is_alloc
      then (elim (take_free (i + 1) pool) [
        | none ↦ none
        | some (j, pool') ↦ some (j, conn ∷ pool')
      ])
      else some (i, record conn { is_alloc = true } ∷ pool)

  -- conn_pool_alloc: one more try after an expansion to three times the size. The pool comes back
  -- also if no place was found.
  unfoldable pub conn_pool_alloc : Bool → List Conn → Option ℕ × List Conn
  unfolding conn_pool_expand take_free
  conn_pool_alloc memory pool = elim (take_free 0 pool) [
    | some (i, pool') ↦ (some i, pool')
    | none ↦
        let bigger = conn_pool_expand memory (2 * length pool) pool in
        elim (take_free 0 bigger) [ some (i, pool') ↦ (some i, pool') | none ↦ (none, bigger) ]
  ]

-- conn_pool_free
unfoldable pub conn_pool_free : Conn → Conn
conn_pool_free conn = record conn { fd = 0; is_alloc = false }
