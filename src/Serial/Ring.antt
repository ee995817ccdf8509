-- ===== src/Serial/Ring.antt =====
-- The byte rings of a serial port in src/serial_tcp_win.c: `rxBuffer` with `rxBufferHead`,
-- `rxBufferTail` and `rxBufferSize`, and the same four fields for `txBuffer`. Both rings follow the
-- same code, so one record stands for either. The head and the tail are `uint32_t`. The locks
-- `rxLock` and `txLock` make each function one step.
pub mod Queue
pub mod Transfer
mod Examples
use betaflight_sitl_udp.Base.{
  ℕ, suc, ◌+◌, ◌-◌, ◌==◌, Bool, true, false, List, [], ◌∷◌, ◌++◌, Option, none, some, ltb, leb,
  if◌then◌else◌, add32, sub32, get_elem?, set, slice,
}

pub record Ring : Type 0 where
  pub buffer : List ℕ
  pub size : ℕ
  pub head : ℕ
  pub tail : ℕ

-- `head >= tail ? head - tail : size + head - tail`, the bytes in use.
pub used : Ring → ℕ
used r = if leb r.tail r.head then sub32 r.head r.tail else sub32 (add32 r.size r.head) r.tail

-- `tcpTotalRxBytesWaiting`.
pub total_rx_bytes_waiting : Ring → ℕ
unfolding used
total_rx_bytes_waiting r = used r

-- `tcpTotalTxBytesFree`.
pub total_tx_bytes_free : Ring → ℕ
unfolding used
total_tx_bytes_free r = sub32 (sub32 r.size 1) (used r)

-- `isTcpTransmitBufferEmpty`.
pub is_transmit_buffer_empty : Ring → Bool
is_transmit_buffer_empty r = r.tail == r.head

-- `if (i + 1 >= size) i = 0; else i++;`
pub advance : ℕ → ℕ → ℕ
advance i size = if leb size (add32 i 1) then 0 else add32 i 1

-- `tcpRead`: `none` stands for a read outside the buffer. It does not look whether a byte waits.
unfoldable pub read : Ring → Option ℕ × Ring
unfolding advance
read r = (get_elem? r.buffer r.tail, record r { tail = advance r.tail r.size })

-- Store at the head and move the head on: the body of `tcpWrite` and of the loops of `tcpWriteBuf`
-- and `tcpDataIn`.
unfoldable pub store : Ring → ℕ → Ring
unfolding advance
store r ch = record r { buffer = set r.buffer r.head ch; head = advance r.head r.size }

-- The loop of `tcpWriteBuf`, which does not look whether there is room.
unfoldable pub write_buf : Ring → List ℕ → Ring
unfolding store
write_buf r [] = r
write_buf r (ch ∷ rest) = write_buf (store r ch) rest

-- `tcpDataIn`: it stops at the first byte that finds the ring full.
unfoldable pub data_in : Ring → List ℕ → Ring
unfolding used store
data_in r [] = r
data_in r (ch ∷ rest) =
    let more = data_in (store r ch) rest in if leb (sub32 r.size 1) (used r) then r else more

-- The second `if` of `tcpDataOut`: copy from `tail` up to the head.
pub second_chunk : Ring → ℕ → List ℕ
second_chunk r tail = if ltb tail r.head then slice r.buffer tail r.head else []

-- The first part of `tcpDataOut`: where the head has gone round, copy up to the end of the buffer and
-- go on from 0; then copy up to the head, and leave the ring empty.
unfoldable pub drain : Ring → List ℕ × Ring
unfolding second_chunk
drain r = (data_out, record r { tail = r.head })
  where
    data_out : List ℕ
    data_out =
        if ltb r.head r.tail
        then slice r.buffer r.tail r.size ++ second_chunk r 0
        else second_chunk r r.tail
