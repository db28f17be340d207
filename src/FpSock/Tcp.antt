-- ===== src/FpSock/Tcp.antt =====
-- src/fp-sock/tcp-server.c: the socket of the server, and tcp_main, which sends each client its
-- address and closes the connection. What the calls of OFP return is an argument. Code under `#if 0`
-- is left out.
pub mod Clients
mod Tests
use dpdk_perf.Common.{
  ℕ, zero, suc, Bool, true, false, Option, none, some, List, [], ◌∷◌, ◌++◌, ltb, ◌==◌,
  if◌then◌else◌,
}
use dpdk_perf.FpSock.Sockets.{Address, ip4, remove}

-- A call of ofp_send: the descriptor, none for -1, the text, and whether it did not fail.
pub record Send : Type 0 where
  pub cfd : Option ℕ
  pub text : List ℕ
  pub ok : Bool

-- Descriptors that are open, the addresses that they are bound to, and the calls of ofp_send, oldest
-- first.
pub record Sockets : Type 0 where
  pub open_fds : List ℕ
  pub bound : List (ℕ × Address)
  pub sends : List Send

pub record Setup : Type 0 where
  pub init_local : Bool
  pub socket : Option ℕ
  pub bind : Bool
  pub listen : Bool

-- TCP_PORT
abbrev pub tcp_port : ℕ
tcp_port = 5000

-- init_sock; the results of ofp_setsockopt are not looked at. `cpu_to_be_16` is odp_cpu_to_be_16.
unfoldable pub init_sock : (ℕ → ℕ) → ℕ → ℕ → Setup → Sockets → Option ℕ × Sockets
init_sock cpu_to_be_16 ip port o s = elim o.socket [
  | none ↦ (none, s)
  | some fd ↦
      let s = record s { open_fds = fd ∷ s.open_fds } in
      let addr : Address = record { ip = ip; port = cpu_to_be_16 port } in
      let s' = record s { bound = (fd, addr) ∷ s.bound } in
      if o.bind then (if o.listen then (some fd, s') else (none, s')) else (none, s)
]

-- One turn of the loop: what ofp_accept gives, the address and whether it has the right size, and
-- the results of ofp_send and ofp_close.
pub record Client : Type 0 where
  pub accepted : Option ℕ
  pub addr : Address
  pub addr_sized : Bool
  pub sent : Bool
  pub closed : Bool

-- What tcp_main has before accept_tcp sets it.
abbrev pub no_address : Address
no_address = record { ip = 0; port = 0 }

-- accept_tcp: cfd, and ip and port.
unfoldable pub accept_tcp : Client → Sockets → (Option ℕ × Address) × Sockets
accept_tcp c s = elim c.accepted [
  | none ↦ ((none, no_address), s)
  | some cfd ↦
      let s = record s { open_fds = cfd ∷ s.open_fds } in
      if c.addr_sized then ((some cfd, c.addr), s) else ((none, no_address), s)
]

-- ofp_close of a descriptor, or of -1.
abbrev pub drop_fd : Option ℕ → List ℕ → List ℕ
drop_fd none fds = fds
drop_fd (some fd) fds = remove fd fds

-- How a turn ends: with the next one, or with return -1.
pub data Ends : Type 0 where
  next minus_one : Sockets → Ends

module _ (address_text : Address → List ℕ) where
  -- The body of while (1); the inner loop runs once, and the result of ofp_send only decides on a
  -- message. `address_text` is what sprintf makes of the address.
  unfoldable pub serve : Client → Sockets → Ends
  unfolding accept_tcp
  serve c s =
      let ((cfd, addr), s) = accept_tcp c s in
      let sent : Send = record { cfd = cfd; text = address_text addr; ok = c.sent } in
      let s = record s { sends = s.sends ++ (sent ∷ []) } in
      if c.closed then next (record s { open_fds = drop_fd cfd s.open_fds }) else minus_one s

  -- while (1); `next` is a server that waits for another client.
  unfoldable pub serve_all : List Client → Sockets → Ends
  unfolding serve
  serve_all [] s = next s
  serve_all (c ∷ cs) s = elim (serve c s) [
    | next s' ↦ serve_all cs s'
    | minus_one s' ↦ minus_one s'
  ]

  -- tcp_main
  unfoldable pub tcp_main : (ℕ → ℕ) → Setup → List Client → Sockets → Ends
  unfolding init_sock serve_all ip4
  tcp_main cpu_to_be_16 o cs s =
      if o.init_local
      then (let (fd, s) = init_sock cpu_to_be_16 (ip4 0 0 0 0) tcp_port o s in
          elim fd [ none ↦ minus_one s | some zero ↦ minus_one s | some (suc n) ↦ serve_all cs s ])
      else minus_one s
