-- ===== src/FpSock/Hook.antt =====
-- src/fp-sock/hook.c: what its hooks print of a packet and answer, and setup_hook, whose body is under
-- `#if 0`. A packet is an argument with the addresses that odp_packet_l3_ptr finds in it.
use dpdk_perf.Common.{ℕ, Option, none, some, List, [], ◌∷◌}

-- The three hooks.
pub data Hook : Type 0 where
  local forward out : Hook

-- OFP_PKT_CONTINUE or another code.
pub data ReturnCode : Type 0 where
  pkt_continue other : ReturnCode

-- A packet: a number for what ofp_print_packet prints, and its source and destination if it has an IP
-- header.
pub record Packet : Type 0 where
  pub id : ℕ
  pub ip : Option (ℕ × ℕ)

-- ofp_print_packet, and the debug message with the two addresses.
pub data Message : Type 0 where
  packet : Hook → ℕ → Message
  addresses : Hook → ℕ → ℕ → Message

-- fastpath_local_hook, fastpath_fwd_hook and fastpath_out_hook.
unfoldable pub on_packet : Hook → Packet → ReturnCode × List Message
on_packet hook pkt = elim pkt.ip [
  | none ↦ (pkt_continue, packet hook pkt.id ∷ [])
  | some (src, dst) ↦ (pkt_continue, packet hook pkt.id ∷ addresses hook src dst ∷ [])
]

-- setup_hook on the table of hooks.
unfoldable pub setup_hook : (Hook → Option Hook) → Hook → Option Hook
setup_hook pkt_hook = pkt_hook
