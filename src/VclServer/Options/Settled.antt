-- ===== src/VclServer/Options/Settled.antt =====
-- What the options of src/vcl-test-server/main.c settle, whatever their order.
use dpdk_perf.Common.{
  ℕ, ◌%◌, ◌^◌, ◌≡◌, refl, Bool, true, false, ◌||◌, not, Option, none, some, List, [], ◌∷◌, arith,
  ltb, if◌then◌else◌, Bool-cases, inl, inr,
}
use dpdk_perf.Common.Int.{ℤ, pos, negsuc, to_u16}
use dpdk_perf.Common.Latest.{given, latest}
use dpdk_perf.VclServer.Options.{
  Proto, udp, tls, any_ip4, any_ip6, Settings, Opt, ip6, datagram, secure, segments, other, w,
  on_opts, initial, process_opts,
}

abbrev pub is_ip6 : Opt → Bool
is_ip6 ip6 = true
is_ip6 _ = false

abbrev pub is_segments : Opt → Bool
is_segments segments = true
is_segments _ = false

abbrev pub is_other : Opt → Bool
is_other other = true
is_other _ = false

abbrev pub transport : Opt → Option Proto
transport datagram = some udp
transport secure = some tls
transport _ = none

-- A number of workers above 1 counts, in eight bits.
abbrev pub worker_count : Opt → Option ℕ
worker_count (w (pos v)) = if ltb 1 v then some (v % 2 ^ 8) else none
worker_count _ = none

abbrev pub settled : List Opt → Settings → Settings
settled os s = record s {
  address_ip6 = given is_ip6 os || s.address_ip6;
  proto = latest transport s.proto os;
  workers = latest worker_count s.workers os;
  use_ds = given is_segments os || s.use_ds;
}

on_opts-settled :
    (os : List Opt) (s : Settings)
    → on_opts os s ≡ (if given is_other os then none else some (settled os s))
unfolding on_opts
on_opts-settled [] s = refl
on_opts-settled (ip6 ∷ os) s = ground (arith, on_opts-settled os (record s { address_ip6 = true }))
on_opts-settled (datagram ∷ os) s = on_opts-settled os (record s { proto = udp })
on_opts-settled (secure ∷ os) s = on_opts-settled os (record s { proto = tls })
on_opts-settled (segments ∷ os) s = ground (arith, on_opts-settled os (record s { use_ds = true }))
on_opts-settled (other ∷ os) s = refl
on_opts-settled (w (negsuc v) ∷ os) s = on_opts-settled os s
on_opts-settled (w (pos v) ∷ os) s = elim (Bool-cases (ltb 1 v)) [
  | inl e ↦ rw e (on_opts-settled os (record s { workers = v % 2 ^ 8 }))
  | inr e ↦ rw e (on_opts-settled os s)
]

-- The settings for a port v: the endpoint is any address of the family chosen, at that port.
abbrev pub settled_at : (ℕ → ℕ) → ℤ → List Opt → Settings
settled_at htons v os =
    let s = settled os (initial 0) in
    record s {
      port = to_u16 v;
      endpt = record {
        is_ip4 = not (given is_ip6 os);
        ip = if given is_ip6 os then any_ip6 else any_ip4;
        port = htons (to_u16 v);
      };
    }

-- Started from the settings of main, the options give the settings that the last transport, the
-- last number of workers above 1 and the flags anywhere among them say, and the endpoint of the
-- family chosen at the port given; they end the process exactly if an option is unknown or asks for
-- help, or no port is given or it is no number.
pub process_opts-settled :
    (htons : ℕ → ℕ) (server_port : ℕ) (os : List Opt) (argument : Option (Option ℤ))
    → process_opts htons os argument (initial server_port) ≡ (
        if given is_other os then none else (elim argument [
          | none ↦ none
          | some none ↦ none
          | some (some v) ↦ some (settled_at htons v os)
        ]))
unfolding process_opts
process_opts-settled htons server_port os argument = elim (Bool-cases (given is_other os)) [
  | inl e ↦ ground (arith, e, on_opts-settled os (initial server_port))
  | inr e ↦ go argument e
]
  where
    go :
        (o : Option (Option ℤ))
        → given is_other os ≡ false
        → process_opts htons os o (initial server_port) ≡ (
            if given is_other os then none else (elim o [
              | none ↦ none
              | some none ↦ none
              | some (some v) ↦ some (settled_at htons v os)
            ]))
    go none e = ground (arith, e, on_opts-settled os (initial server_port))
    go (some none) e = ground (arith, e, on_opts-settled os (initial server_port))
    go (some (some v)) e = ground (arith, e, on_opts-settled os (initial server_port))
