-- ===== src/UdpEcho/Options/Settled.antt =====
-- What the options of src/udp-echo/main.c settle.
use dpdk_perf.Common.{
  ℕ, ◌*◌, ◌%◌, ◌^◌, ◌<◌, ◌≡◌, refl, Bool, true, false, ◌&&◌, not, Option, none, some, List, [], ◌∷◌,
  All, arith, if◌then◌else◌,
}
use dpdk_perf.Common.Latest.{given, latest}
use dpdk_perf.UdpEcho.Options.{
  Config, Opt, chroot_prefix, uri, segment_size_m, segment_size_g, mbytes, fifo_size, server,
  client, no_return, other, on_opts,
}

abbrev pub is_other : Opt → Bool
is_other other = true
is_other _ = false

abbrev pub is_no_return : Opt → Bool
is_no_return no_return = true
is_no_return _ = false

abbrev pub role : Opt → Option Bool
role server = some true
role client = some false
role _ = none

abbrev pub prefix_of : Opt → Option (Option (List ℕ))
prefix_of (chroot_prefix p) = some (some p)
prefix_of _ = none

abbrev pub uri_of : Opt → Option (List ℕ)
uri_of (uri u) = some u
uri_of _ = none

-- Sizes in bytes.
abbrev pub bytes_of : Opt → Option ℕ
bytes_of (mbytes n) = some (n * 2 ^ 20)
bytes_of _ = none

abbrev pub fifo_of : Opt → Option ℕ
fifo_of (fifo_size n) = some (n * 2 ^ 10 % 2 ^ 32)
fifo_of _ = none

abbrev pub segment_of : Opt → Option ℕ
segment_of (segment_size_m n) = some (n % 2 ^ 12 * 2 ^ 20)
segment_of (segment_size_g n) = some (n % 4 * 2 ^ 30)
segment_of _ = none

-- A number that fits the u32 that unformat writes it to.
abbrev pub IsWord : Opt → Type 0
IsWord (mbytes n) = n < 2 ^ 32
IsWord (fifo_size n) = n < 2 ^ 32
IsWord (segment_size_m n) = n < 2 ^ 32
IsWord (segment_size_g n) = n < 2 ^ 32
IsWord _ = Unit {0}

abbrev pub settled : List Opt → Config → Config
settled os c = record {
  root_path = latest prefix_of c.root_path os;
  uri = latest uri_of c.uri os;
  configured_segment_size = latest segment_of c.configured_segment_size os;
  have_return = not (given is_no_return os) && c.have_return;
  bytes_to_send = latest bytes_of c.bytes_to_send os;
  fifo_size = latest fifo_of c.fifo_size os;
  i_am_server = latest role c.i_am_server os;
}

-- Options whose numbers fit a u32 give the configuration that the last of each kind says, or the
-- process ends exactly if there is anything unknown among them. The number of bytes to send is
-- exact; of a segment size in megabytes the lowest 12 bits of the number count, of one in
-- gigabytes the lowest 2.
pub on_opts-settled :
    (os : List Opt) (c : Config)
    → All IsWord os
    → on_opts os c ≡ (if given is_other os then none else some (settled os c))
unfolding on_opts
on_opts-settled [] c h = ground arith
on_opts-settled (chroot_prefix p ∷ os) c (h, hs) =
    on_opts-settled os (record c { root_path = some p }) hs
on_opts-settled (uri u ∷ os) c (h, hs) = on_opts-settled os (record c { uri = u }) hs
on_opts-settled (segment_size_m n ∷ os) c (h, hs) =
    let e : n * 2 ^ 20 % 2 ^ 32 ≡ n % 2 ^ 12 * 2 ^ 20 = omega arith in
    rw e (on_opts-settled os (record c { configured_segment_size = n % 2 ^ 12 * 2 ^ 20 }) hs)
on_opts-settled (segment_size_g n ∷ os) c (h, hs) =
    let e : n * 2 ^ 30 % 2 ^ 32 ≡ n % 4 * 2 ^ 30 = omega arith in
    rw e (on_opts-settled os (record c { configured_segment_size = n % 4 * 2 ^ 30 }) hs)
on_opts-settled (mbytes n ∷ os) c (h, hs) =
    let e : n * 2 ^ 20 % 2 ^ 64 ≡ n * 2 ^ 20 = omega arith in
    rw e (on_opts-settled os (record c { bytes_to_send = n * 2 ^ 20 }) hs)
on_opts-settled (fifo_size n ∷ os) c (h, hs) =
    on_opts-settled os (record c { fifo_size = n * 2 ^ 10 % 2 ^ 32 }) hs
on_opts-settled (server ∷ os) c (h, hs) = on_opts-settled os (record c { i_am_server = true }) hs
on_opts-settled (client ∷ os) c (h, hs) = on_opts-settled os (record c { i_am_server = false }) hs
on_opts-settled (no_return ∷ os) c (h, hs) =
    ground (arith, on_opts-settled os (record c { have_return = false }) hs)
on_opts-settled (other ∷ os) c (h, hs) = refl
