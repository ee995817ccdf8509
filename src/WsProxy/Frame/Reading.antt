-- ===== src/WsProxy/Frame/Reading.antt =====
-- `readFull` reads exactly what it was asked for, however the network splits the input, and
-- `sendAll` sends a prefix.
use betaflight_sitl_udp.Base.{
  ℕ, zero, suc, ◌-◌, ◌≤◌, ◌<◌, ◌≡◌, refl, ◌∙◌, ap, List, [], ◌∷◌, ◌++◌, Option, none, some, leb,
  if◌then◌else◌, arith, min, length, take, drop, drop-nil, take-nil, length-drop, take-append-drop,
}
use betaflight_sitl_udp.WsProxy.Frame.{
  Recv, send_rounds, send_all, take_part, read_rounds, read_full,
}

-- What Winsock documents of a blocking `recv`: it returns no more than it was asked for or than
-- there is, and nothing only at the end of the input.
pub record Reads (recv : Recv) : Type 0 where
  pub bounded : (want : ℕ) (input : List ℕ) → recv want input ≤ min want (length input)
  pub progress : (want : ℕ) (input : List ℕ) → 0 < want → 0 < length input → 0 < recv want input

-- The first `len` bytes of the input and what follows them, if there are so many.
abbrev pub split_at : ℕ → List ℕ → Option (List ℕ × List ℕ)
split_at len input = if leb len (length input) then some (take len input, drop len input) else none

module _ {ℓ} {A : Type ℓ} where
  take-take :
      (n len : ℕ) (xs : List A) → n ≤ len → take n xs ++ take (len - n) (drop n xs) ≡ take len xs
  take-take zero len xs h = ap (λ k. take k xs) (omega arith)
  take-take (suc n) zero xs h = absurd (omega arith)
  take-take (suc n) (suc len) [] h = take-nil {A = A} (suc len - suc n)
  take-take (suc n) (suc len) (x ∷ xs) h =
      ap (◌∷◌ x)
        (ap (λ k. take n xs ++ take k (drop n xs)) (omega arith) ∙ take-take n len xs (omega arith))

  drop-drop : (n len : ℕ) (xs : List A) → n ≤ len → drop (len - n) (drop n xs) ≡ drop len xs
  drop-drop zero len xs h = ap (λ k. drop k xs) (omega arith)
  drop-drop (suc n) zero xs h = absurd (omega arith)
  drop-drop (suc n) (suc len) [] h = drop-nil {A = A} (suc len - suc n)
  drop-drop (suc n) (suc len) (x ∷ xs) h =
      ap (λ k. drop k (drop n xs)) (omega arith) ∙ drop-drop n len xs (omega arith)

module _ (recv : Recv) (reads : Reads recv) where
  take_part_lem :
      (got len : ℕ) (input : List ℕ) (more : ℕ → Option (List ℕ × List ℕ))
      → 0 < len
      → got ≤ min len (length input)
      → (0 < length input → 0 < got)
      → ((n : ℕ) → 0 < n → n ≤ got → more n ≡ split_at (len - n) (drop n input))
      → take_part got input more ≡ split_at len input
  unfolding take_part
  take_part_lem zero len input more pos b p h = ground arith
  take_part_lem (suc n) len input more pos b p h = ground (
    arith,
    h (suc n),
    length-drop (suc n) input,
    take-take (suc n) len input,
    drop-drop (suc n) len input,
  )

  read_rounds_lem :
      (fuel len : ℕ) (input : List ℕ)
      → len ≤ fuel
      → read_rounds recv fuel len input ≡ split_at len input
  unfolding read_rounds
  read_rounds_lem fuel zero input h = ground arith
  read_rounds_lem zero (suc len) input h = absurd (omega arith)
  read_rounds_lem (suc fuel) (suc len) input h =
      take_part_lem (recv (suc len) input) (suc len) input _ (omega arith)
        (reads.bounded (suc len) input) (reads.progress (suc len) input (omega arith))
        (λ n pos le. read_rounds_lem fuel (suc len - n) (drop n input) (omega arith))

-- `readFull` returns the next `len` bytes in order, however `recv` splits them, and fails exactly if
-- the input ends before.
pub read_full_lem :
    {recv : Recv} (len : ℕ) (input : List ℕ)
    → Reads recv
    → read_full recv len input ≡ split_at len input
unfolding read_full
read_full_lem {recv} len input reads = read_rounds_lem recv reads len len input (omega arith)

send_rounds_lem :
    (send : List ℕ → ℕ) (fuel : ℕ) (bytes : List ℕ)
    → ((d : List ℕ) → 0 < length d → 0 < send d)
    → length bytes ≤ fuel
    → send_rounds send fuel bytes ≡ bytes
unfolding send_rounds
send_rounds_lem send zero [] takes h = refl
send_rounds_lem send zero (b ∷ bytes) takes h = absurd (omega arith)
send_rounds_lem send (suc fuel) [] takes h = refl
send_rounds_lem send (suc fuel) (b ∷ bytes) takes h =
    go (send (b ∷ bytes)) refl
      (λ n. send_rounds_lem send fuel (drop n bytes) takes (omega (arith, length-drop n bytes)))
  where
    go :
        (n : ℕ)
        → send (b ∷ bytes) ≡ n
        → ((k : ℕ) → send_rounds send fuel (drop k bytes) ≡ drop k bytes)
        → send_rounds send (suc fuel) (b ∷ bytes) ≡ b ∷ bytes
    go zero e ih = absurd (omega (arith, takes (b ∷ bytes) (omega arith)))
    go (suc n) e ih = rw (e, send_rounds) (rw (ih n) (ap (◌∷◌ b) (take-append-drop n bytes)))

-- `sendAll` sends all its bytes in order, where `send` takes one byte at least whenever there is one.
pub send_all_lem :
    (send : List ℕ → ℕ) (bytes : List ℕ)
    → ((d : List ℕ) → 0 < length d → 0 < send d)
    → send_all send bytes ≡ bytes
unfolding send_all
send_all_lem send bytes takes = send_rounds_lem send (length bytes) bytes takes (omega arith)
