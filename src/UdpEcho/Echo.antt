-- ===== src/UdpEcho/Echo.antt =====
-- The echo of the server in src/udp-echo/main.c: server_handle_fifo_event_rx and its two loops.
-- What the FIFOs answer is an argument of each round: app_recv_dgram_raw or app_recv_stream_raw
-- for the number of bytes asked for, app_send for the number offered, and the value of time_to_stop
-- that the end of a round reads. `received` and `sent` keep the bytes, oldest first; `recorded`
-- the u32 that each call of RECORD gets.
pub mod Reflect
pub mod Whole
pub mod Total
pub mod Bytes
pub mod Receptions
pub mod Recorded
use dpdk_perf.Common.{
  ℕ, zero, suc, ◌+◌, ◌-◌, ◌%◌, ◌^◌, min, Bool, true, false, ◌&&◌, ◌||◌, not, Option, none, some,
  List, [], ◌∷◌, ◌++◌, ltb, ◌==◌, if◌then◌else◌, take, drop, length,
}
use dpdk_perf.Common.Int.{ℤ, pos, negsuc, is_positive, is_negative, pos_part, sub_nat, to_u32}

-- One turn of the inner loop.
pub record Try : Type 0 where
  pub app_send : ℕ → ℤ
  pub stop : Bool

-- What is left of rx_buf to send, and what app_send took.
pub record Reflection : Type 0 where
  pub n_read : ℤ
  pub offset : ℕ
  pub sent : List ℕ

-- The body of the inner loop, after rv = app_send(session, &utm->rx_buf[offset], n_read, ...).
unfoldable pub move_on : List ℕ → ℤ → Reflection → Reflection
move_on rx_buf rv r =
    if is_positive rv
    then record {
      n_read = sub_nat r.n_read (pos_part rv);
      offset = r.offset + pos_part rv;
      sent = r.sent ++ take (pos_part rv) (drop r.offset rx_buf);
    }
    else r

-- The inner loop; `none` if it still runs when the tries end.
unfoldable pub reflect : List ℕ → List Try → Reflection → Option Reflection
unfolding move_on
reflect rx_buf [] r = none
reflect rx_buf (t ∷ ts) r =
    let rv = t.app_send (pos_part r.n_read) in
    let r' = move_on rx_buf rv r in
    let rest = reflect rx_buf ts r' in
    if (not (is_positive rv) || is_positive r'.n_read) && not t.stop then rest else some r'

-- A call to receive: an error, -1 - e, or the bytes put into rx_buf.
pub data Received : Type 0 where
  error : ℕ → Received
  got : List ℕ → Received

pub record Round : Type 0 where
  pub recv : ℕ → Received
  pub tries : List Try
  pub event_unset : Bool
  pub stop : Bool

pub record Echo : Type 0 where
  pub max_dequeue : ℕ
  pub received : List ℕ
  pub sent : List ℕ
  pub recorded : List ℕ
  pub tx_events : ℕ

-- The reception: n_read bytes, counted and recorded.
unfoldable pub take_in : List ℕ → Echo → Echo
take_in bytes s = record s {
  max_dequeue =
      if ltb 0 (length bytes)
      then (s.max_dequeue + 2 ^ 32 - length bytes) % 2 ^ 32
      else s.max_dequeue;
  received = s.received ++ bytes;
  recorded = s.recorded ++ (to_u32 (pos (length bytes)) ∷ []);
}

-- The body of the outer loop: the n_read that its condition reads, and the state.
unfoldable pub round : Bool → ℕ → Round → Echo → Option (ℤ × Echo)
unfolding take_in reflect
round have_return rx_buf_len r s = elim (r.recv (min rx_buf_len s.max_dequeue)) [
  | error e ↦ some (negsuc e, record s { recorded = s.recorded ++ (to_u32 (negsuc e) ∷ []) })
  | got bytes ↦
      let s = take_in bytes s in
      let n = length bytes in
      if have_return && ltb 0 n
      then (elim (reflect bytes r.tries (record { n_read = pos n; offset = 0; sent = s.sent })) [
        | none ↦ none
        | some q ↦ some (
          q.n_read,
          record s {
            sent = q.sent;
            tx_events = if r.event_unset then s.tx_events + 1 else s.tx_events;
          },
        )
      ])
      else some (pos n, s)
]

-- The outer loop; `none` if it still runs when the rounds end.
unfoldable pub rounds : Bool → ℕ → List Round → Echo → Option Echo
unfolding round
rounds have_return rx_buf_len [] s = none
rounds have_return rx_buf_len (r ∷ rs) s = elim (round have_return rx_buf_len r s) [
  | none ↦ none
  | some (n_read, s') ↦
      let rest = rounds have_return rx_buf_len rs s' in
      if (is_negative n_read || ltb 0 s'.max_dequeue) && not r.stop then rest else some s'
]

-- server_handle_fifo_event_rx
unfoldable pub server_handle_fifo_event_rx : Bool → ℕ → List Round → Echo → Option Echo
unfolding rounds
server_handle_fifo_event_rx have_return rx_buf_len rs s =
    if s.max_dequeue == 0 then some s else rounds have_return rx_buf_len rs s
