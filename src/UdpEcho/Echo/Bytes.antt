-- ===== src/UdpEcho/Echo/Bytes.antt =====
-- Three bytes that a server of src/udp-echo/main.c gets one at a time.
use dpdk_perf.Common.{
  ℕ, zero, suc, refl, true, false, List, [], ◌∷◌, replicate, All-replicate, arith,
}
use dpdk_perf.Common.Int.{pos}
use dpdk_perf.UdpEcho.Echo.{Received, got, Try, Round}
use dpdk_perf.UdpEcho.Echo.Reflect.{IsLawful as IsLawfulTry}
use dpdk_perf.UdpEcho.Echo.Whole.{Fits, IsLawfulRound}

-- A FIFO of three bytes, given one at a time, which are sent back as they come.
abbrev pub one_byte : ℕ → Received
one_byte zero = got []
one_byte (suc n) = got (7 ∷ [])

abbrev pub one_try : Try
one_try = record { app_send = λ n. pos n; stop = false }

abbrev pub one_round : Round
one_round = record {
  recv = one_byte;
  tries = replicate 2 one_try;
  event_unset = true;
  stop = false;
}

pub one_byte-Fits : (n : ℕ) → Fits n (one_byte n)
one_byte-Fits zero = omega arith
one_byte-Fits (suc n) = omega arith

pub polite : IsLawfulTry one_try
polite = (λ n. omega arith, refl)

pub round_law : IsLawfulRound one_round
round_law = (one_byte-Fits, All-replicate IsLawfulTry {a = one_try} 2 polite, refl)

abbrev pub three_rounds : List Round
three_rounds = one_round ∷ one_round ∷ one_round ∷ []
