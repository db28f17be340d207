-- ===== src/FpSock/Udp/Echoed.antt =====
-- What the UDP server of src/fp-sock/udp-server.c sends, and the sockets that it leaves open.
use mathlib.Core.List.{append_assoc, append-nil, map-append}
use dpdk_perf.Common.{
  ℕ, zero, suc, ◌≤◌, ◌≡◌, refl, sym, ap, ap₂, subst, ◌∙◌, Bool, true, false, ◌&&◌, Option, none,
  some, List, [], ◌∷◌, ◌++◌, map, arith, ltb, ◌==◌, if◌then◌else◌,
}
use dpdk_perf.FpSock.Sockets.{Address}
use dpdk_perf.FpSock.Udp.{
  Packets, EventKind, recv, other, echo_mark, Sigval, Sent, notify, notify_all, Outcomes, Sockets,
  udp_main,
}

module _ (odp : Packets) (parse : odp.Packet → odp.Packet × Address) where
  open odp use {Packet, payload, headroom, write-push}

  -- An event that OFP reports: a reception comes with a packet, which has room for five bytes before
  -- its payload.
  abbrev pub IsReported : Sigval odp → Type 0
  IsReported ss = elim ss.event [
    | other ↦ Unit {0}
    | recv ↦ (p : Packet) × (ss.pkt ≡ some p) × (5 ≤ headroom (parse p).0)
  ]

  abbrev pub AreReported : List (Sigval odp) → Type 0
  AreReported [] = Unit {0}
  AreReported (ss ∷ sss) = IsReported ss × AreReported sss

  -- The reply to an event: the socket, the bytes and the receiver.
  abbrev pub reply : Sigval odp → List (ℕ × (List ℕ × Address))
  reply ss = elim ss.event [
    | other ↦ []
    | recv ↦ (elim ss.pkt [
      | none ↦ []
      | some p ↦ (ss.sockfd, (echo_mark ++ payload (parse p).0, (parse p).1)) ∷ []
    ])
  ]

  abbrev pub replies : List (Sigval odp) → List (ℕ × (List ℕ × Address))
  replies [] = []
  replies (ss ∷ sss) = reply ss ++ replies sss

  -- The packets that stay with OFP.
  abbrev pub left : List (Sigval odp) → List (Option Packet)
  left [] = []
  left (ss ∷ sss) = (elim ss.event [ other ↦ ss.pkt | recv ↦ none ]) ∷ left sss

  abbrev pub bytes : Sent odp → ℕ × (List ℕ × Address)
  bytes x = (x.fd, (payload x.packet, x.to))

  fields-reply :
      (fd : ℕ) (event : EventKind) (pkt : Option Packet) (sent : List (Sent odp))
      → let ss : Sigval odp = record { sockfd = fd; event = event; pkt = pkt } in
        IsReported ss
        → (map bytes (notify odp parse ss sent).1 ≡ map bytes sent ++ reply ss)
          × ((notify odp parse ss sent).0.pkt ≡ (elim event [ other ↦ pkt | recv ↦ none ]))
  unfolding notify
  fields-reply fd other pkt sent h = (sym (append-nil _), refl)
  fields-reply fd recv none sent (p, e, room) = absurd (ground (arith, e))
  fields-reply fd recv (some q) sent (p, e, room) =
      let it : p ≡ q = ap (λ o. elim o [ none ↦ q | some x ↦ x ]) (sym e) in
      let made = write-push (parse q).0 echo_mark (subst (λ r. 5 ≤ headroom (parse r).0) it room) in
      (
        map-append bytes sent _ ∙ ap (λ l. map bytes sent ++ ((fd, (l, (parse q).1)) ∷ [])) made,
        refl,
      )

  notify-reply :
      (ss : Sigval odp) (sent : List (Sent odp))
      → IsReported ss
      → (map bytes (notify odp parse ss sent).1 ≡ map bytes sent ++ reply ss)
        × ((notify odp parse ss sent).0.pkt ≡ (elim ss.event [ other ↦ ss.pkt | recv ↦ none ]))
  notify-reply ss sent h = fields-reply ss.sockfd ss.event ss.pkt sent h

  -- For any events, each reception with a packet with room for five more bytes: the server sends one
  -- datagram for every reception and none else, in their order, on the socket of the event, with
  -- "ECHO:" and the payload received, to the sender; and it gives back just the packets of the other
  -- events.
  pub notify_all-replies :
      (sss : List (Sigval odp)) (sent : List (Sent odp))
      → AreReported sss
      → (map bytes (notify_all odp parse sss sent).1 ≡ map bytes sent ++ replies sss)
        × ((notify_all odp parse sss sent).0 ≡ left sss)
  unfolding notify_all
  notify_all-replies [] sent h = (sym (append-nil _), refl)
  notify_all-replies (ss ∷ sss) sent (h, hs) =
      let (ss', sent') = notify odp parse ss sent in
      let (e, e') = notify-reply ss sent h in
      let (ih, ih') = notify_all-replies sss sent' hs in
      (
        ih ∙ ap (λ l. l ++ replies sss) e ∙ append_assoc (map bytes sent) (reply ss) (replies sss),
        ap₂ (λ x xs. x ∷ xs) e' ih',
      )

above : (n : ℕ) → ltb 0 (suc n) ≡ true
above n = ground arith

same : (n : ℕ) → (suc n == suc n) ≡ true
same n = ground arith

-- udp_main closes the socket that it opens exactly if the socket is not 0 and could be bound, and the
-- close succeeds: a socket that cannot be bound stays open, as does one with the descriptor 0.
pub udp_main_sockets :
    (cpu_to_be_16 : ℕ → ℕ) (o : Outcomes) (s : Sockets)
    → (udp_main cpu_to_be_16 o s).1.open_fds ≡ (
        if o.init_local
        then (elim o.socket [
          | none ↦ s.open_fds
          | some fd ↦ if ltb 0 fd && (o.bind && o.close) then s.open_fds else fd ∷ s.open_fds
        ])
        else s.open_fds)
unfolding udp_main
udp_main_sockets cpu_to_be_16 o s = go o.init_local o.socket o.bind o.sigevent o.close
  where
    go :
        (l : Bool) (fd : Option ℕ) (b e c : Bool)
        → let o' : Outcomes = record {
          init_local = l;
          socket = fd;
          bind = b;
          sigevent = e;
          close = c;
        } in
          (udp_main cpu_to_be_16 o' s).1.open_fds ≡ (
            if l
            then (elim fd [
              | none ↦ s.open_fds
              | some f ↦ if ltb 0 f && (b && c) then s.open_fds else f ∷ s.open_fds
            ])
            else s.open_fds)
    go false fd b e c = refl
    go true none b true c = refl
    go true none b false c = refl
    go true (some fd) false true c = ground arith
    go true (some fd) false false c = ground arith
    go true (some zero) true true c = refl
    go true (some zero) true false c = refl
    go true (some (suc fd)) true true true = rw (above fd, same fd) refl
    go true (some (suc fd)) true false true = rw (above fd, same fd) refl
    go true (some (suc fd)) true true false = rw (above fd) refl
    go true (some (suc fd)) true false false = rw (above fd) refl
