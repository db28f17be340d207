-- ===== src/UdpEcho/Main.antt =====
-- main of src/udp-echo/main.c, with connect_to_vpp, unformat_uri and unformat_ip4_address: the options, the state that main
-- sets up, and the client or the server that it runs. What the libraries answer is an argument.
pub mod Preallocated
pub mod Whole
mod Tests
use dpdk_perf.Common.{
  leb, ◌||◌, if◌then◌else◌, ◌*◌, ℕ, zero, suc, ◌+◌, ◌%◌, ◌^◌, Bool, true, false, Option, none, some,
  List, [], ◌∷◌, ◌++◌,
}
use dpdk_perf.UdpEcho.Vpp.{PoolOps, HashOps}
use dpdk_perf.UdpEcho.Session.{ConnectionState, start, AppSession, zeroed, EchoMain, no_index}
use dpdk_perf.UdpEcho.Send.{Transfer, Answer}
use dpdk_perf.UdpEcho.Options.{Opt, Config, defaults, on_opts, is_connected}
use dpdk_perf.UdpEcho.Client.{client_test}
use dpdk_perf.UdpEcho.Server.{Served, udp_server_test}

-- "udp_echo_server", "udp_echo_client"
pub data AppName : Type 0 where
  udp_echo_server udp_echo_client : AppName

-- The fields of session_endpoint_cfg_t that unformat_uri writes.
pub record Endpoint : Type 0 where
  pub ip : ℕ
  pub port : ℕ
  pub is_ip4 : Bool

-- unformat_ip4_address, for the four numbers that unformat finds: the bytes of the address.
unfoldable pub unformat_ip4_address : ℕ × ℕ × ℕ × ℕ → Option (List ℕ)
unformat_ip4_address (a, b, c, d) =
    if leb 256 a || (leb 256 b || (leb 256 c || leb 256 d)) then none else some (a ∷ b ∷ c ∷ d ∷ [])

-- The number that a little-endian processor reads from some bytes.
abbrev pub number_of : List ℕ → ℕ
number_of [] = 0
number_of (b ∷ bs) = b + 256 * number_of bs

-- unformat_uri, for what unformat finds with "%s://%U/%d": the numbers of an IPv4 address and a port,
-- and the address that unformat_ip6_address reads and a port. The argument of clib_host_to_net_u16 is
-- a u16.
unfoldable pub unformat_uri :
    (ℕ → ℕ) → Option ((ℕ × ℕ × ℕ × ℕ) × ℕ) → Option (ℕ × ℕ) → Option Endpoint
unfolding unformat_ip4_address
unformat_uri clib_host_to_net_u16 with_ip4 with_ip6 =
    let as_ip6 : Option Endpoint = elim with_ip6 [
      | none ↦ none
      | some (ip6, port) ↦
          some (record { ip = ip6; port = clib_host_to_net_u16 (port % 2 ^ 16); is_ip4 = false })
    ] in
    elim with_ip4 [
      | none ↦ as_ip6
      | some (a, port) ↦ (elim (unformat_ip4_address a) [
        | none ↦ as_ip6
        | some bytes ↦ some (record {
          ip = number_of bytes;
          port = clib_host_to_net_u16 (port % 2 ^ 16);
          is_ip4 = true;
        })
      ])
    ]

-- What the calls of VPP answer: vl_client_connect_to_vlib with the client's index, the two readings of
-- a URI, and the memory that holds client_session_index of each FIFO.
pub record Vpp : Type 0 where
  pub connects : AppName → Bool
  pub my_client_index : ℕ
  pub with_ip4 : List ℕ → Option ((ℕ × ℕ × ℕ × ℕ) × ℕ)
  pub with_ip6 : List ℕ → Option (ℕ × ℕ)
  pub clib_host_to_net_u16 : ℕ → ℕ
  pub client_session_index : ℕ → ℕ

-- connect_to_vpp; none is -1.
unfoldable pub connect_to_vpp : Vpp → AppName → Option ℕ
connect_to_vpp vpp name = if vpp.connects name then some vpp.my_client_index else none

-- sep->ip and sep->port that session_connected_handler reads from a URI.
abbrev pub remote_of : Vpp → List ℕ → Option (ℕ × ℕ)
remote_of vpp u = elim (unformat_uri vpp.clib_host_to_net_u16 (vpp.with_ip4 u) (vpp.with_ip6 u)) [
  | none ↦ none
  | some sep ↦ some (sep.ip, sep.port)
]

-- vec_len(rx_buf) after vec_validate(utm->rx_buf, 64 << 10).
abbrev pub rx_buf_len : ℕ
rx_buf_len = 64 * 2 ^ 10 + 1

module _ (P : PoolOps AppSession) (H : HashOps) where
  -- for (i = 0; i < n; i++): pool_get and clib_memset.
  unfoldable pub get_sessions : ℕ → P.Pool → P.Pool
  get_sessions zero pool = pool
  get_sessions (suc n) pool = let (pool', i) = P.get pool in get_sessions n (P.write pool' i zeroed)

  -- for (; i < i + n; i++): pool_put_index.
  unfoldable pub put_sessions : ℕ → ℕ → P.Pool → P.Pool
  put_sessions zero i pool = pool
  put_sessions (suc n) i pool = put_sessions n (i + 1) (P.put pool i)

  -- The "hack preallocation".
  abbrev pub preallocate : ℕ → P.Pool → P.Pool
  preallocate n pool = put_sessions n 0 (get_sessions n pool)

  -- udp_echo_main when main has looked at the URI; the other fields are in Config.
  abbrev pub set_up : Vpp → List ℕ → EchoMain P H
  set_up vpp uri = record {
    state = start;
    sessions = P.empty;
    session_index_by_vpp_handles = H.empty;
    vpp_event_queue = 0;
    cut_through_session_index = no_index;
    connected_session = 0;
    is_connected = is_connected uri;
    client_session_index = vpp.client_session_index;
    sent = [];
  }

  -- What happens while the client runs: the states that it reads, its turns, and the FIFO's answers.
  pub record ClientRun : Type 0 where
    pub states : List ConnectionState
    pub turns : List dpdk_perf.UdpEcho.Client.Turn
    pub rounds : List (Bool × Answer)

  -- The same for the server, with the states that its three waits read.
  pub record ServerRun : Type 0 where
    pub before : List ConnectionState
    pub meanwhile : List ConnectionState
    pub turns : List dpdk_perf.UdpEcho.Server.Turn
    pub after : List ConnectionState

  -- How main goes: exit(1) at an unknown option or without VPP, or what it has run.
  pub data Exit : Type 0 where
    bad_option no_vpp : Exit
    client_ran : dpdk_perf.UdpEcho.Client.Ends P H → Exit
    server_ran : dpdk_perf.UdpEcho.Server.Outcome P H → Exit

  -- The part of main behind the options; `uri` has its terminator.
  unfoldable pub run : Vpp → ClientRun → ServerRun → Config → Exit
  unfolding connect_to_vpp client_test udp_server_test get_sessions put_sessions unformat_uri
      is_connected
  run vpp c s config =
      let uri = config.uri ++ (0 ∷ []) in
      let utm = set_up vpp uri in
      let name = if config.i_am_server then udp_echo_server else udp_echo_client in
      elim (connect_to_vpp vpp name) [
        | none ↦ no_vpp
        | some my_client_index ↦ elim config.i_am_server [
          | false ↦ client_ran (
              client_test P H (remote_of vpp uri) my_client_index config.fifo_size uri c.states
                c.turns c.rounds utm
                (record { bytes_to_send = config.bytes_to_send; bytes_sent = 0; wire = [] }))
          | true ↦
              let utm' = record utm { sessions = preallocate 200000 utm.sessions } in
              server_ran (
                udp_server_test P H config.have_return rx_buf_len (remote_of vpp []) my_client_index
                  config.fifo_size uri s.before s.meanwhile s.turns s.after
                  (record { utm = utm'; echoes = []; printed = [] }))
        ]
      ]

  unfoldable pub main : Vpp → ClientRun → ServerRun → List Opt → Exit
  unfolding on_opts run
  main vpp c s opts = elim (on_opts opts defaults) [
    | none ↦ bad_option
    | some config ↦ run vpp c s config
  ]
