-- ===== src/VclServer/Worker/Data.antt =====
-- A worker of src/vcl-test-server/main.c with a pool of two free places, and events for it.
use dpdk_perf.Common.{Bool, true, false, List, [], ◌∷◌}
use dpdk_perf.Common.Int.{pos}
use dpdk_perf.VclServer.Pool.{echo, Cfg, Conn, no_time, new_conn}
use dpdk_perf.VclServer.Server.{Worker, TestLib}
use dpdk_perf.VclServer.Loop.{Setup, Answers, Event, listener}

abbrev pub cfg : Cfg
cfg = record {
  magic = 42;
  test = echo;
  ctrl_handle = 0;
  num_writes = 1;
  rxbuf_size = 64;
  txbuf_size = 64;
  total_bytes = 64;
  verbose = false;
}

abbrev pub lib : TestLib
lib = record {
  accumulate = λ sum tc. sum;
  comp_tspec = λ a b. pos 0;
  buf_alloc = λ c n. (c, n);
  delay_disconnect = 1;
}

abbrev pub setup : Setup
setup = record {
  use_ds = false;
  cfg_size = 100;
  ctrl_magic = 42;
  new_cfg = cfg;
  new_buf_size = 64;
  count_write = λ s n. s;
}

abbrev pub idle : Conn
idle = record (new_conn cfg 64) { is_alloc = false }

abbrev pub waiting : Worker
waiting = record { conn_pool = idle ∷ idle ∷ []; nfds = 0; writes = []; closed = []; results = [] }

abbrev pub nobody : List Bool
nobody = false ∷ false ∷ []

abbrev pub answers : Answers
answers = record { memory = true; accepted = pos 8; added = true; now = no_time; reads = [] }

abbrev pub arrival : Event
arrival = record { place = listener; hup = false; epollin = true }

abbrev pub hang_up : Event
hang_up = record { place = 0; hup = true; epollin = false }
