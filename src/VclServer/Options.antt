-- ===== src/VclServer/Options.antt =====
-- vcl_test_server_process_opts of src/vcl-test-server/main.c and the endpoint that it sets up. What
-- getopt returns, and what sscanf makes of the first other argument, are arguments; `none` is
-- print_usage_and_exit, which ends the process.
pub mod Settled
mod Tests
use dpdk_perf.Common.{
  ℕ, ◌+◌, ◌%◌, ◌^◌, Bool, true, false, Option, none, some, List, [], ◌∷◌, ltb, if◌then◌else◌, ◌>>=◌,
}
use dpdk_perf.Common.Int.{ℤ, pos, negsuc, to_u16}

pub data Proto : Type 0 where
  tcp udp tls : Proto

-- in6addr_any and htonl(INADDR_ANY).
pub data Address : Type 0 where
  any_ip4 any_ip6 : Address

-- vppcom_endpt_t
pub record Endpoint : Type 0 where
  pub is_ip4 : Bool
  pub ip : Address
  pub port : ℕ

-- vcl_test_server_cfg_t and use_ds.
pub record Settings : Type 0 where
  pub port : ℕ
  pub address_ip6 : Bool
  pub proto : Proto
  pub workers : ℕ
  pub use_ds : Bool
  pub endpt : Endpoint

-- A result of getopt(argc, argv, "6DLsw:"); `w v` has atoi(optarg), `other` is '?' or 'h'.
pub data Opt : Type 0 where
  ip6 datagram secure segments other : Opt
  w : ℤ → Opt

-- The body of the loop. workers is a u8.
unfoldable pub on_opt : Opt → Settings → Option Settings
on_opt ip6 s = some (record s { address_ip6 = true })
on_opt datagram s = some (record s { proto = udp })
on_opt secure s = some (record s { proto = tls })
on_opt segments s = some (record s { use_ds = true })
on_opt other s = none
on_opt (w (negsuc v)) s = some s
on_opt (w (pos v)) s = some (if ltb 1 v then record s { workers = v % 2 ^ 8 } else s)

-- while ((c = getopt(...)) != -1)
unfoldable pub on_opts : List Opt → Settings → Option Settings
unfolding on_opt
on_opts [] s = some s
on_opts (o ∷ os) s = on_opt o s >>= on_opts os

-- vcl_test_init_endpoint_addr; `htons` is the byte swap of the library.
unfoldable pub init_endpoint_addr : (ℕ → ℕ) → Settings → Settings
init_endpoint_addr htons s = record s {
  endpt =
      if s.address_ip6
      then record { is_ip4 = false; ip = any_ip6; port = htons s.port }
      else record { is_ip4 = true; ip = any_ip4; port = htons s.port };
}

-- What follows the loop: `argument` is argv[optind], if there is one, as a number.
unfoldable pub take_port : (ℕ → ℕ) → Option (Option ℤ) → Settings → Option Settings
unfolding init_endpoint_addr
take_port htons (some (some v)) s = some (init_endpoint_addr htons (record s { port = to_u16 v }))
take_port htons _ s = none

-- What main sets before, for VCL_TEST_SERVER_PORT; the rest of the static variable is zero.
abbrev pub initial : ℕ → Settings
initial server_port = record {
  port = server_port;
  address_ip6 = false;
  proto = tcp;
  workers = 1;
  use_ds = false;
  endpt = record { is_ip4 = false; ip = any_ip4; port = 0 };
}

unfoldable pub process_opts : (ℕ → ℕ) → List Opt → Option (Option ℤ) → Settings → Option Settings
unfolding on_opts take_port
process_opts htons os argument s = do
  s ← on_opts os (record s { proto = tcp })
  take_port htons argument s
