-- ===== src/Serial/Ring/Transfer.antt =====
-- Moving bytes through a ring: `tcpDataIn`, `tcpWriteBuf` and the first half of `tcpDataOut`.
use betaflight_sitl_udp.Base.{
  ℕ, suc, ◌-◌, ◌≤◌, ◌<◌, ◌≡◌, refl, false, List, [], ◌∷◌, ◌++◌, leb, sub32, arith, length, set,
  take, take_all, take_none, slice, length-append, Bool-cases, inl, inr, slice_empty, append-nil,
  append_assoc,
}
use betaflight_sitl_udp.Serial.Ring.{
  Ring, used, store, write_buf, data_in, drain, second_chunk, advance,
}
use betaflight_sitl_udp.Serial.Ring.Queue.{
  IsValid, contents, used-contents, counts-contents, store-IsValid, contents-store,
}

-- The bytes that still fit: one position always stays free.
abbrev pub room : Ring → ℕ
room r = r.size - 1 - length (contents r)

full_iff : {r : Ring} → IsValid r → leb (sub32 r.size 1) (used r) ≡ leb (r.size - 1) (used r)
full_iff v = ground arith

size-store : (r : Ring) (ch : ℕ) → (store r ch).size ≡ r.size
unfolding store
size-store r ch = refl

contents-store-room :
    {r : Ring} (ch : ℕ)
    → IsValid r
    → leb (sub32 r.size 1) (used r) ≡ false
    → (contents (store r ch) ≡ contents r ++ ch ∷ []) × (room r ≡ suc (room (store r ch)))
contents-store-room {r} ch v h = ground (
  arith,
  counts-contents v,
  counts-contents (store-IsValid ch v),
  contents-store ch v,
  length-append (contents r) (ch ∷ []),
  size-store r ch,
)

-- On a valid ring `tcpDataIn` appends the longest prefix of the packet that fits, keeps the ring valid, and drops
-- the rest of the packet.
pub data_in_lem :
    (bytes : List ℕ) {r : Ring}
    → IsValid r
    → IsValid (data_in r bytes)
      × (contents (data_in r bytes) ≡ contents r ++ take (room r) bytes)
      × ((data_in r bytes).size ≡ r.size)
unfolding data_in
data_in_lem [] {r} v = ground (arith, take_all {A = ℕ} (room r) [], append-nil (contents r))
data_in_lem (ch ∷ rest) {r} v = elim (Bool-cases (leb (sub32 r.size 1) (used r))) [
  | inl full ↦ rw full (
    v,
    ground (arith, used-contents v, append-nil (contents r), take_none (room r) (ch ∷ rest)),
    refl,
  )
  | inr free ↦ rw free (
      let (fit, less) = contents-store-room ch v free in
      let (valid, same, sized) = data_in_lem rest (store-IsValid ch v) in
      (
        valid,
        ground (arith, append_assoc (contents r) (ch ∷ []) (take (room (store r ch)) rest)),
        ground (arith, size-store r ch),
      ))
]

pub write_buf-IsValid : (bytes : List ℕ) {r : Ring} → IsValid r → IsValid (write_buf r bytes)
unfolding write_buf
write_buf-IsValid [] v = v
write_buf-IsValid (ch ∷ rest) v = write_buf-IsValid rest (store-IsValid ch v)

-- `tcpWriteBuf` appends all its bytes where its caller has seen that they fit.
pub write_buf_lem :
    (bytes : List ℕ) {r : Ring}
    → IsValid r
    → length bytes ≤ room r
    → IsValid (write_buf r bytes) × (contents (write_buf r bytes) ≡ contents r ++ bytes)
unfolding write_buf
write_buf_lem [] {r} v h = (v, ground (arith, append-nil (contents r)))
write_buf_lem (ch ∷ rest) {r} v h =
    let (fit, less) = contents-store-room ch v (ground (arith, used-contents v)) in
    let (valid, same) = write_buf_lem rest (store-IsValid ch v) (omega arith) in
    (valid, ground (arith, append_assoc (contents r) (ch ∷ []) rest))

second_chunk_lem : (r : Ring) (tail : ℕ) → second_chunk r tail ≡ slice r.buffer tail r.head
unfolding second_chunk
second_chunk_lem r tail = ground (arith, slice_empty r.buffer tail r.head)

-- `tcpDataOut` copies out exactly the waiting bytes, in order, fewer than the buffer is long, and
-- leaves an empty valid ring.
pub drain_lem :
    {r : Ring}
    → IsValid r
    → ((drain r).0 ≡ contents r)
      × (length (drain r).0 < r.size)
      × IsValid (drain r).1
      × (contents (drain r).1 ≡ [])
unfolding drain
drain_lem {r} v = ground (
  arith,
  used-contents v,
  counts-contents v,
  second_chunk_lem r 0,
  second_chunk_lem r r.tail,
  slice_empty r.buffer r.head r.head,
)

-- A store into a full ring, which `tcpWrite` and `tcpWriteBuf` do not guard against, makes the ring
-- look empty: every waiting byte is lost.
pub store_full : {r : Ring} (ch : ℕ) → IsValid r → room r ≡ 0 → contents (store r ch) ≡ []
unfolding store advance used
store_full {r} ch v h = ground (
  arith,
  used-contents v,
  slice_empty (set r.buffer r.head ch) 0 0,
  slice_empty (set r.buffer r.head ch) r.tail r.tail,
)
