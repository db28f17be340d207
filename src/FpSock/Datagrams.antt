-- ===== src/FpSock/Datagrams.antt =====
-- send_data and recvfrom_udp of src/fp-sock/udp-server.c, which only code under `#if 0` calls. What
-- the calls of OFP return is an argument; the print of every millionth datagram is left out.
pub mod Terminated
use dpdk_perf.Common.{
  ℕ, suc, Bool, true, false, Option, none, some, List, [], ◌∷◌, ◌++◌, ltb, ◌==◌, if◌then◌else◌,
  length, drop,
}
use dpdk_perf.FpSock.Sockets.{Address}

-- The bytes up to the first 0.
unfoldable pub text : List ℕ → List ℕ
text [] = []
text (c ∷ cs) = if c == 0 then [] else c ∷ text cs

-- A call of ofp_sendto.
pub record Sendto : Type 0 where
  pub fd : ℕ
  pub bytes : List ℕ
  pub to : Address

-- What send_data asks OFP to send; it returns -1 exactly if that call does.
unfoldable pub send_data : ℕ → ℕ → ℕ → List ℕ → Sendto
unfolding text
send_data fd ip port buf = record {
  fd = fd;
  bytes = text buf;
  to = record { ip = ip; port = port };
}

-- A result of ofp_recvfrom other than -1: the bytes put at the start of the buffer, and whether the
-- address has the size of an ofp_sockaddr_in.
pub record Datagram : Type 0 where
  pub bytes : List ℕ
  pub from : Address
  pub addr_ok : Bool

-- How recvfrom_udp ends: -1, a write behind the end of the buffer, or 0 with the sender and the buffer.
pub data Ends : Type 0 where
  minus_one overrun : Ends
  received : Address → List ℕ → Ends

-- recvfrom_udp with a buffer of blen bytes.
unfoldable pub recvfrom_udp : Option Datagram → List ℕ → Ends
recvfrom_udp none buf = minus_one
recvfrom_udp (some d) buf =
    let len = length d.bytes in
    if d.addr_ok
    then (if ltb len (length buf)
        then received d.from (d.bytes ++ (0 ∷ drop (suc len) buf))
        else overrun)
    else minus_one
