-- ===== src/FpSock/Datagrams/Terminated.antt =====
-- The buffer that recvfrom_udp of src/fp-sock/udp-server.c leaves.
use dpdk_perf.Common.{
  ℕ, suc, ◌≤◌, ◌≡◌, refl, true, some, List, ◌∷◌, ◌++◌, arith, ltb, length, drop, Bool-cases, inl,
  inr, ◌⊎◌, length-append, length-drop,
}
use dpdk_perf.FpSock.Datagrams.{Datagram, overrun, received, recvfrom_udp}

-- A datagram with an address of the right size is put into the buffer with a terminator behind it if
-- it is shorter than the buffer, which keeps its length; if it fills the buffer, the terminator is
-- written behind the end.
recvfrom_udp_lem :
    (d : Datagram) (buf : List ℕ)
    → d.addr_ok ≡ true
    → length d.bytes ≤ length buf
    → ((length d.bytes ≡ length buf) × (recvfrom_udp (some d) buf ≡ overrun))
      ⊎ ((rest : List ℕ) × (recvfrom_udp (some d) buf ≡ received d.from (d.bytes ++ (0 ∷ rest)))
          × (length (d.bytes ++ (0 ∷ rest)) ≡ length buf))
unfolding recvfrom_udp
recvfrom_udp_lem d buf ok fits = elim (Bool-cases (ltb (length d.bytes) (length buf))) [
  | inl e ↦
      let rest = drop (suc (length d.bytes)) buf in
      inr (
        rest,
        rw (ok, e) refl,
        ground (
          arith,
          e,
          length-append {0} d.bytes (0 ∷ rest),
          length-drop {0} (suc (length d.bytes)) buf,
        ),
      )
  | inr e ↦ inl (ground (arith, e), rw (ok, e) refl)
]
