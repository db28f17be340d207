-- ===== src/FpSock/Udp/Tests.antt =====
-- The UDP server of src/fp-sock/udp-server.c on packets that are lists of bytes with their headroom.
use dpdk_perf.Common.{
  ℕ, ◌-◌, ◌≡◌, refl, ap, true, false, ◌&&◌, none, some, List, [], ◌∷◌, ◌++◌, map, arith, leb, ltb,
  if◌then◌else◌, length, drop, replicate, ◌≤◌,
}
use dpdk_perf.FpSock.Sockets.{Address}
use dpdk_perf.FpSock.Udp.{Packets, recv, other, Sigval, notify_all, Outcomes, Sockets, udp_main}
use dpdk_perf.FpSock.Udp.Echoed.{bytes, replies, left, notify_all-replies, udp_main_sockets}

drop_zeros : (bs l : List ℕ) → drop (length bs) (replicate (length bs) 0 ++ l) ≡ l
drop_zeros [] l = refl
drop_zeros (b ∷ bs) l = drop_zeros bs l

fits : (n room : ℕ) → n ≤ room → leb n room ≡ true
fits n room h = ground arith

abbrev pushed : ℕ × List ℕ → ℕ → ℕ × List ℕ
pushed (room, l) n = if leb n room then (room - n, replicate n 0 ++ l) else (room, l)

abbrev odp : Packets
odp = record {
  Packet = ℕ × List ℕ;
  payload = λ p. p.1;
  headroom = λ p. p.0;
  push_head = pushed;
  write = λ p bs. (p.0, bs ++ drop (length bs) p.1);
  write-push = λ p bs h. rw (fits (length bs) p.0 h) (ap (λ l. bs ++ l) (drop_zeros bs p.1));
}

abbrev sender : Address
sender = record { ip = 0x0100007f; port = 53 }

abbrev parse : ℕ × List ℕ → (ℕ × List ℕ) × Address
parse p = (p, sender)

abbrev events : List (Sigval odp)
events =
    record { sockfd = 3; event = recv; pkt = some (64, 104 ∷ 105 ∷ []) }
    ∷ record { sockfd = 3; event = other; pkt = none }
    ∷ record { sockfd = 3; event = recv; pkt = some (64, 33 ∷ []) }
    ∷ []

notify_all-replies_example :
    (map (bytes odp parse) (notify_all odp parse events []).1 ≡ [] ++ replies odp parse events)
    × ((notify_all odp parse events []).0 ≡ left odp parse events)
notify_all-replies_example =
    notify_all-replies odp parse events []
      ((_, refl, omega arith), (tt, ((_, refl, omega arith), tt)))

-- odp_cpu_to_be_16 of a little-endian processor, on 6000 (0x1770).
abbrev swap : ℕ → ℕ
swap n = 0x7017

-- A socket that cannot be bound.
abbrev unbound : Outcomes
unbound = record { init_local = true; socket = some 3; bind = false; sigevent = true; close = true }

abbrev no_sockets : Sockets
no_sockets = record { open_fds = []; bound = []; notified = [] }

udp_main_sockets_example : (udp_main swap unbound no_sockets).1.open_fds ≡ (
    if unbound.init_local
    then (elim unbound.socket [
      | none ↦ []
      | some fd ↦ if ltb 0 fd && (unbound.bind && unbound.close) then [] else fd ∷ []
    ])
    else [])
udp_main_sockets_example = udp_main_sockets swap unbound no_sockets
