-- ===== src/UdpEcho/Options/Tests.antt =====
-- A client of src/udp-echo/main.c that sends 3000 megabytes through small FIFOs.
use dpdk_perf.Common.{◌≡◌, ◌*◌, ◌^◌, refl, none, some, List, [], ◌∷◌, arith, if◌then◌else◌, false}
use dpdk_perf.Common.Latest.{given}
use dpdk_perf.UdpEcho.Options.{
  Opt, segment_size_g, mbytes, fifo_size, server, client, no_return, defaults, on_opts,
  is_connected, default_uri,
}
use dpdk_perf.UdpEcho.Options.Settled.{is_other, settled, on_opts-settled}

abbrev options : List Opt
options = server ∷ mbytes 3000 ∷ client ∷ segment_size_g 5 ∷ no_return ∷ fifo_size 4 ∷ []

on_opts-settled_example :
    on_opts options defaults
    ≡ (if given is_other options then none else some (settled options defaults))
on_opts-settled_example =
    on_opts-settled options defaults
      (tt, (omega arith, (tt, (omega arith, (tt, (omega arith, tt))))))

three_thousand : (settled options defaults).bytes_to_send ≡ 3000 * 2 ^ 20
three_thousand = refl

-- Five gigabytes leave one.
five_gigabytes : (settled options defaults).configured_segment_size ≡ 2 ^ 30
five_gigabytes = refl

not_connected : is_connected default_uri ≡ false
unfolding is_connected
not_connected = refl

-- "udpc://"
not_connected_either : is_connected (117 ∷ 100 ∷ 112 ∷ 99 ∷ 58 ∷ 47 ∷ 47 ∷ []) ≡ false
unfolding is_connected
not_connected_either = refl
