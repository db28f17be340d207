-- ===== src/FpSock/Sockets.antt =====
-- What the servers of src/fp-sock share: addresses, and the descriptors that are open.
pub mod Octets
use dpdk_perf.Common.{ℕ, ◌*◌, ◌^◌, List, [], ◌∷◌, bit_and, bit_or, ◌==◌, if◌then◌else◌}

-- IP4 of envs.h.
unfoldable pub ip4 : ℕ → ℕ → ℕ → ℕ → ℕ
ip4 a b c d =
    bit_or (bit_or (bit_or (bit_and a 0xff) (bit_and b 0xff * 2 ^ 8)) (bit_and c 0xff * 2 ^ 16))
      (bit_and d 0xff * 2 ^ 24)

-- ofp_sockaddr_in
pub record Address : Type 0 where
  pub ip : ℕ
  pub port : ℕ

-- ofp_close of a descriptor.
abbrev pub remove : ℕ → List ℕ → List ℕ
remove fd [] = []
remove fd (x ∷ xs) = let rest = remove fd xs in if fd == x then xs else x ∷ rest
