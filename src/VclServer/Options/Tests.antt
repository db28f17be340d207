-- ===== src/VclServer/Options/Tests.antt =====
-- Options of src/vcl-test-server/main.c: an IPv6 server over UDP, and one that asks for 512 workers.
use dpdk_perf.Common.{ℕ, ◌≡◌, refl, some, List, [], ◌∷◌}
use dpdk_perf.Common.Int.{pos, negsuc}
use dpdk_perf.VclServer.Options.{Opt, ip6, datagram, secure, w, initial, process_opts}
use dpdk_perf.VclServer.Options.Settled.{settled_at, process_opts-settled}

-- htons of a little-endian processor, on 5000 (0x1388).
abbrev swap : ℕ → ℕ
swap n = 0x8813

abbrev options : List Opt
options = w (pos 4) ∷ secure ∷ ip6 ∷ w (negsuc 2) ∷ datagram ∷ []

process_opts-settled_example :
    process_opts swap options (some (some (pos 5000))) (initial 22000)
    ≡ some (settled_at swap (pos 5000) options)
process_opts-settled_example = process_opts-settled swap 22000 options (some (some (pos 5000)))

four_workers : (settled_at swap (pos 5000) options).workers ≡ 4
four_workers = refl
