-- ===== src/Serial/Ring/Queue.antt =====
-- A valid ring behaves as the queue of the bytes between its tail and its head.
use betaflight_sitl_udp.Base.{
  ℕ, suc, ◌+◌, ◌<◌, ◌^◌, ◌≡◌, List, [], ◌∷◌, ◌++◌, some, ltb, if◌then◌else◌, arith, length, set,
  slice, Bool-cases, inl, inr, length-append, length-set, length-slice, slice_empty,
  slice-set_outside_low, slice-set_outside_high, slice-set_end, slice_uncons, append-nil,
  append_assoc,
}
use betaflight_sitl_udp.Serial.Ring.{
  Ring, used, total_rx_bytes_waiting, total_tx_bytes_free, advance, read, store,
}

-- The buffer holds `size` bytes, and both ends lie inside it.
pub record IsValid (r : Ring) : Type 0 where
  pub storage : length r.buffer ≡ r.size
  pub small : r.size < 2 ^ 31
  pub head_in : r.head < r.size
  pub tail_in : r.tail < r.size

-- The bytes that wait, oldest first.
abbrev pub contents : Ring → List ℕ
contents r =
    if ltb r.head r.tail
    then slice r.buffer r.tail r.size ++ slice r.buffer 0 r.head
    else slice r.buffer r.tail r.head

-- The byte counts of the driver count the queue, without any wrap-around, and room and contents
-- make up one byte less than the buffer.
pub counts-contents :
    {r : Ring}
    → IsValid r
    → (total_rx_bytes_waiting r ≡ length (contents r))
      × (total_tx_bytes_free r + length (contents r) + 1 ≡ r.size)
unfolding total_rx_bytes_waiting total_tx_bytes_free
counts-contents {r} v = ground (
  arith,
  length-append (slice r.buffer r.tail r.size) (slice r.buffer 0 r.head),
  length-slice r.buffer r.tail r.size,
  length-slice r.buffer 0 r.head,
  length-slice r.buffer r.tail r.head,
)

pub used-contents : {r : Ring} → IsValid r → used r ≡ length (contents r)
unfolding total_rx_bytes_waiting
used-contents v = (counts-contents v).0

pub advance_lt : (i size : ℕ) → i < size → size < 2 ^ 31 → advance i size < size
unfolding advance
advance_lt i size h s = ground arith

pub store-IsValid : {r : Ring} (ch : ℕ) → IsValid r → IsValid (store r ch)
unfolding store
store-IsValid {r} ch v = ground (arith, length-set r.buffer r.head ch, advance_lt r.head r.size)

pub read-IsValid : {r : Ring} → IsValid r → IsValid (read r).1
unfolding read
read-IsValid {r} v = ground (arith, advance_lt r.tail r.size)

-- A store with room appends the byte.
pub contents-store :
    {r : Ring} (ch : ℕ)
    → IsValid r
    → used r + 1 < r.size
    → contents (store r ch) ≡ contents r ++ ch ∷ []
unfolding store advance used
contents-store {r} ch v room = ground (
  arith,
  slice-set_end r.buffer r.tail r.head ch,
  slice-set_end r.buffer 0 r.head ch,
  slice-set_outside_high r.buffer r.head r.tail r.head ch,
  slice-set_outside_low r.buffer r.head r.tail r.size ch,
  slice_empty (set r.buffer r.head ch) 0 0,
  append-nil (slice r.buffer r.tail r.head ++ ch ∷ []),
  append_assoc (slice r.buffer r.tail r.size) (slice r.buffer 0 r.head) (ch ∷ []),
)

-- A read of a ring that is not empty takes the oldest byte.
pub contents-read :
    {r : Ring}
    → IsValid r
    → 0 < used r
    → (ch : ℕ) × ((read r).0 ≡ some ch) × (contents r ≡ ch ∷ contents (read r).1)
unfolding read advance used
contents-read {r} v waiting = elim (Bool-cases (ltb r.head r.tail)) [
  | inl wraps ↦
      let (ch, at, rest) = slice_uncons r.buffer r.tail r.size v.tail_in (rw v.storage v.tail_in) in
      (ch, at, ground (arith, slice_empty r.buffer (suc r.tail) r.size))
  | inr plain ↦
      let (ch, at, rest) =
        slice_uncons r.buffer r.tail r.head (ground arith) (rw v.storage v.tail_in) in
      (ch, at, ground (arith, slice_empty r.buffer (suc r.tail) r.head))
]
