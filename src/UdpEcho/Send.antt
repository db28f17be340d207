-- ===== src/UdpEcho/Send.antt =====
-- The client's sending of src/udp-echo/main.c: send_test_chunk and the loop of client_send_data.
-- What the FIFO answers is an argument of each call: the free space and, for a number of bytes
-- offered, what app_send returns. `wire` keeps the bytes that app_send took, oldest first.
pub mod Ramp
pub mod Stream
use dpdk_perf.Common.{
  ℕ, zero, suc, ◌+◌, ◌-◌, ◌*◌, ◌%◌, ◌^◌, min, Bool, true, false, ◌&&◌, ◌||◌, Option, none, some,
  List, [], ◌∷◌, ◌++◌, ltb, ◌==◌, if◌then◌else◌, take, drop, bit_and,
}
use dpdk_perf.Common.Int.{ℤ, is_positive, pos_part}

pub record Transfer : Type 0 where
  pub bytes_to_send : ℕ
  pub bytes_sent : ℕ
  pub wire : List ℕ

-- vec_len(connect_test_data)
abbrev pub test_buf_len : ℕ
test_buf_len = 1024 * 1024

-- for (i = 0; i < vec_len(connect_test_data); i++) connect_test_data[i] = i & 0xff
unfoldable pub fill_pattern : ℕ → ℕ → List ℕ
fill_pattern zero i = []
fill_pattern (suc n) i = bit_and i 0xff ∷ fill_pattern n (i + 1)

unfoldable pub connect_test_data : List ℕ
connect_test_data = fill_pattern test_buf_len 0

-- One answer of the FIFO.
pub record Answer : Type 0 where
  pub enq_space : ℕ
  pub app_send : ℕ → ℤ

-- The number of bytes that send_test_chunk offers.
unfoldable pub bytes_this_chunk : Transfer → ℕ → ℕ
bytes_this_chunk utm enq_space =
    min (min (test_buf_len - utm.bytes_sent % test_buf_len) utm.bytes_to_send) enq_space

unfoldable pub send_test_chunk : Answer → Transfer → Transfer
send_test_chunk answer utm =
    let offset = utm.bytes_sent % test_buf_len in
    let chunk = bytes_this_chunk utm answer.enq_space in
    let written = answer.app_send chunk in
    if is_positive written
    then record utm {
      bytes_to_send = (utm.bytes_to_send + 2 ^ 64 - pos_part written) % 2 ^ 64;
      bytes_sent = (utm.bytes_sent + pos_part written) % 2 ^ 64;
      wire = utm.wire ++ take (pos_part written) (drop offset connect_test_data);
    }
    else utm

-- while (!utm->time_to_stop && utm->bytes_to_send): each round has its answer and the value of
-- time_to_stop that its test reads; `none` is a loop that still runs when the answers end.
unfoldable pub send_loop : List (Bool × Answer) → Transfer → Option Transfer
send_loop [] utm = if utm.bytes_to_send == 0 then some utm else none
send_loop ((stop, answer) ∷ more) utm =
    let rest = send_loop more (send_test_chunk answer utm) in
    if stop || utm.bytes_to_send == 0 then some utm else rest
