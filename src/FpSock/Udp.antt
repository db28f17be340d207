-- ===== src/FpSock/Udp.antt =====
-- src/fp-sock/udp-server.c: the socket of the server, udp_main, and notify, which OFP calls for each
-- event of the socket. What the calls of OFP return is an argument; the packets of ODP are an
-- interface. Code under `#if 0` and the print of every millionth datagram are left out.
pub mod Echoed
mod Tests
use dpdk_perf.Common.{
  ℕ, zero, suc, ◌+◌, ◌*◌, ◌^◌, ◌≤◌, ◌≡◌, Bool, true, false, Option, none, some, List, [], ◌∷◌, ◌++◌,
  length, ltb, if◌then◌else◌,
}
use dpdk_perf.FpSock.Sockets.{Address, ip4, remove}

-- The packets of ODP: odp_packet_push_head moves the start of the data n bytes down, as far as there
-- is headroom, and memcpy writes at the start.
pub record Packets : Type 1 where
  pub Packet : Type 0
  pub payload : Packet → List ℕ
  pub headroom : Packet → ℕ
  pub push_head : Packet → ℕ → Packet
  pub write : Packet → List ℕ → Packet
  pub write-push :
      (p : Packet) (bs : List ℕ)
      → length bs ≤ headroom p
      → payload (write (push_head p (length bs)) bs) ≡ bs ++ payload p

-- OFP_EVENT_RECV or another event.
pub data EventKind : Type 0 where
  recv other : EventKind

-- "ECHO:"
abbrev pub echo_mark : List ℕ
echo_mark = 69 ∷ 67 ∷ 72 ∷ 79 ∷ 58 ∷ []

module _ (odp : Packets) where
  open odp use {Packet, push_head, write}

  -- ofp_sock_sigval, with ODP_PACKET_INVALID as none.
  pub record Sigval : Type 0 where
    pub sockfd : ℕ
    pub event : EventKind
    pub pkt : Option Packet

  -- A call of ofp_udp_pkt_sendto.
  pub record Sent : Type 0 where
    pub fd : ℕ
    pub packet : Packet
    pub to : Address

  -- notify, with what ofp_udp_packet_parse makes of a packet: its payload and its sender. What is sent
  -- is kept in order.
  unfoldable pub notify : (Packet → Packet × Address) → Sigval → List Sent → Sigval × List Sent
  notify parse ss sent = elim ss.event [
    | other ↦ (ss, sent)
    | recv ↦ (elim ss.pkt [
      -- OFP gives a packet with each of these events.
      | none ↦ (ss, sent)
      | some pkt ↦
          let (p, addr) = parse pkt in
          let reply = write (push_head p 5) echo_mark in
          (
            record ss { pkt = none },
            sent ++ (record { fd = ss.sockfd; packet = reply; to = addr } ∷ []),
          )
    ])
  ]

  -- OFP calls notify with one event after the other: the packets that it did not take, and all that
  -- was sent.
  unfoldable pub notify_all :
      (Packet → Packet × Address) → List Sigval → List Sent → List (Option Packet) × List Sent
  unfolding notify
  notify_all parse [] sent = ([], sent)
  notify_all parse (ss ∷ sss) sent =
      let (ss', sent') = notify parse ss sent in
      let (back, all) = notify_all parse sss sent' in (ss'.pkt ∷ back, all)

-- What the calls of OFP return. socket is none for -1.
pub record Outcomes : Type 0 where
  pub init_local : Bool
  pub socket : Option ℕ
  pub bind : Bool
  pub sigevent : Bool
  pub close : Bool

-- The sockets that are open, the addresses that they are bound to, and those that notify is called
-- for.
pub record Sockets : Type 0 where
  pub open_fds : List ℕ
  pub bound : List (ℕ × Address)
  pub notified : List ℕ

-- UDP_PORT
abbrev pub udp_port : ℕ
udp_port = 6000

-- init_sock: the socket, and none for -1. `cpu_to_be_16` is odp_cpu_to_be_16.
unfoldable pub init_sock : (ℕ → ℕ) → ℕ → ℕ → Outcomes → Sockets → Option ℕ × Sockets
init_sock cpu_to_be_16 ip port o s = elim o.socket [
  | none ↦ (none, s)
  | some fd ↦
      let s = record s { open_fds = fd ∷ s.open_fds } in
      let addr : Address = record { ip = ip; port = cpu_to_be_16 port } in
      if o.bind then (some fd, record s { bound = (fd, addr) ∷ s.bound }) else (none, s)
]

-- How udp_main ends: `minus_one` is return -1, `no_value` the end of the function without a return,
-- once the sleep is over.
pub data Ends : Type 0 where
  minus_one no_value : Ends

abbrev pub close_socket : ℕ → Outcomes → Sockets → Ends × Sockets
close_socket fd o s =
    if o.close then (no_value, record s { open_fds = remove fd s.open_fds }) else (minus_one, s)

-- What a test for 0 or less sees.
abbrev pub fd_of : Option ℕ → ℕ
fd_of none = 0
fd_of (some fd) = fd

-- udp_main; a descriptor 0 counts as a failure. sleep(-1) after the registration is left out.
unfoldable pub udp_main : (ℕ → ℕ) → Outcomes → Sockets → Ends × Sockets
unfolding init_sock ip4
udp_main cpu_to_be_16 o s =
    if o.init_local
    then (let (fd, s) = init_sock cpu_to_be_16 (ip4 0 0 0 0) udp_port o s in
        let s' = if o.sigevent then record s { notified = fd_of fd ∷ s.notified } else s in
        if ltb 0 (fd_of fd) then close_socket (fd_of fd) o s' else (minus_one, s))
    else (minus_one, s)
