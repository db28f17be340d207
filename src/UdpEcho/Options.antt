-- ===== src/UdpEcho/Options.antt =====
-- The options of src/udp-echo/main.c: the loop of main over the command line, what main sets before
-- it and after it. What unformat finds is part of the options; the sizes are u32.
pub mod Settled
mod Tests
use dpdk_perf.Common.{
  ℕ, ◌*◌, ◌%◌, ◌^◌, Bool, true, false, Option, none, some, List, [], ◌∷◌, get_or, ◌==◌,
  if◌then◌else◌, ◌>>=◌,
}

-- What the options change of main and of udp_echo_main_t; `root_path` is what
-- vl_set_memory_root_path gets.
pub record Config : Type 0 where
  pub root_path : Option (List ℕ)
  pub uri : List ℕ
  pub configured_segment_size : ℕ
  pub have_return : Bool
  pub bytes_to_send : ℕ
  pub fifo_size : ℕ
  pub i_am_server : Bool

-- What unformat finds next; `other` is anything else.
pub data Opt : Type 0 where
  chroot_prefix uri : List ℕ → Opt
  segment_size_m segment_size_g mbytes fifo_size : ℕ → Opt
  server client no_return other : Opt

-- "udp://6.0.1.1/1234"
abbrev pub default_uri : List ℕ
default_uri =
    117 ∷ 100 ∷ 112 ∷ 58 ∷ 47 ∷ 47 ∷ 54 ∷ 46 ∷ 48 ∷ 46 ∷ 49 ∷ 46 ∷ 49 ∷ 47 ∷ 49 ∷ 50 ∷ 51 ∷ 52 ∷ []

-- What main sets before.
abbrev pub defaults : Config
defaults = record {
  root_path = none;
  uri = default_uri;
  configured_segment_size = 128 * 2 ^ 10;
  have_return = true;
  bytes_to_send = 1024;
  fifo_size = 64 * 2 ^ 10;
  i_am_server = true;
}

-- The body of the loop; none is exit(1). tmp is a u32, bytes_to_send a u64, the other sizes u32.
unfoldable pub on_opt : Opt → Config → Option Config
on_opt (chroot_prefix p) c = some (record c { root_path = some p })
on_opt (uri u) c = some (record c { uri = u })
on_opt (segment_size_m n) c = some (record c { configured_segment_size = n * 2 ^ 20 % 2 ^ 32 })
on_opt (segment_size_g n) c = some (record c { configured_segment_size = n * 2 ^ 30 % 2 ^ 32 })
on_opt server c = some (record c { i_am_server = true })
on_opt client c = some (record c { i_am_server = false })
on_opt no_return c = some (record c { have_return = false })
on_opt (mbytes n) c = some (record c { bytes_to_send = n * 2 ^ 20 % 2 ^ 64 })
on_opt (fifo_size n) c = some (record c { fifo_size = n * 2 ^ 10 % 2 ^ 32 })
on_opt other c = none

unfoldable pub on_opts : List Opt → Config → Option Config
unfolding on_opt
on_opts [] c = some c
on_opts (o ∷ os) c = on_opt o c >>= on_opts os

-- is_connected, once the URI has its terminator.
unfoldable pub is_connected : List ℕ → Bool
is_connected u = get_or u 4 0 == 99
