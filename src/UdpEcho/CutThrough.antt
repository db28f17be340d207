-- ===== src/UdpEcho/CutThrough.antt =====
-- cut_through_thread_fn of src/udp-echo/main.c, from the copy buffer on: the other end of a
-- cut-through session. What the FIFOs answer is an argument of each round. Without have_return the
-- bytes are dropped from the FIFO, and only their number counts.
pub mod Mirror
pub mod Total
mod Tests
use dpdk_perf.Common.{
  ℕ, ◌+◌, ◌%◌, ◌^◌, Bool, true, false, Option, none, some, List, [], ◌∷◌, ◌++◌, ltb, if◌then◌else◌,
  length,
}
use dpdk_perf.Common.Int.{ℤ, pos, is_positive, pos_part}
use dpdk_perf.UdpEcho.Echo.{Reflection, move_on, Received, error, got}

-- The answers of one round: those of the FIFO read, those of svm_fifo_enqueue_nowait for a number of
-- bytes offered, and the value of time_to_stop at its end.
pub record Turn : Type 0 where
  pub reads : List Received
  pub enqueue_nowait : List (ℕ → ℤ)
  pub stop : Bool

pub record CutThrough : Type 0 where
  pub server_bytes_received : ℕ
  pub server_bytes_sent : ℕ
  pub received : List ℕ
  pub sent : List ℕ

-- do ... while (actual_transfer <= 0)
unfoldable pub wait_for_bytes : List Received → Option (List ℕ)
wait_for_bytes [] = none
wait_for_bytes (error e ∷ rs) = wait_for_bytes rs
wait_for_bytes (got bytes ∷ rs) =
    let rest = wait_for_bytes rs in if ltb 0 (length bytes) then some bytes else rest

-- while (actual_transfer > 0)
unfoldable pub send_all : List ℕ → List (ℕ → ℤ) → Reflection → Option Reflection
unfolding move_on
send_all buffer [] r = if is_positive r.n_read then none else some r
send_all buffer (enqueue ∷ more) r =
    let rest = send_all buffer more (move_on buffer (enqueue (pos_part r.n_read)) r) in
    if is_positive r.n_read then rest else some r

-- The body of the loop behind the wait.
abbrev pub hand_on : Bool → Turn → List ℕ → CutThrough → Option CutThrough
hand_on have_return t bytes s =
    let s = record s {
      server_bytes_received = (s.server_bytes_received + length bytes) % 2 ^ 64;
      received = s.received ++ bytes;
    } in
    if have_return
    then (elim (send_all bytes t.enqueue_nowait
        (record { n_read = pos (length bytes); offset = 0; sent = s.sent })) [
          | none ↦ none
          | some q ↦ some (record s {
            server_bytes_sent = (s.server_bytes_sent + q.offset) % 2 ^ 64;
            sent = q.sent;
          })
        ])
    else some s

-- The body of the loop; `none` if it still runs when the answers end.
unfoldable pub turn : Bool → Turn → CutThrough → Option CutThrough
unfolding wait_for_bytes send_all
turn have_return t s = elim (wait_for_bytes t.reads) [
  | none ↦ none
  | some bytes ↦ hand_on have_return t bytes s
]

-- while (1)
unfoldable pub cut_through_thread : Bool → List Turn → CutThrough → Option CutThrough
unfolding turn
cut_through_thread have_return [] s = none
cut_through_thread have_return (t ∷ ts) s = elim (turn have_return t s) [
  | none ↦ none
  | some s' ↦ let rest = cut_through_thread have_return ts s' in if t.stop then some s' else rest
]
