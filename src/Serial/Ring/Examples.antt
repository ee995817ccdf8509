-- ===== src/Serial/Ring/Examples.antt =====
-- The ring's theorems at a ring of four bytes whose contents go round its end.
use betaflight_sitl_udp.Base.{◌≡◌, refl, [], ◌∷◌, true, arith}
use betaflight_sitl_udp.Serial.Ring.{Ring, is_transmit_buffer_empty, data_in, drain, second_chunk}
use betaflight_sitl_udp.Serial.Ring.Queue.{IsValid, contents}
use betaflight_sitl_udp.Serial.Ring.Transfer.{data_in_lem}

-- 8, then 9, round the end of the buffer
abbrev wrapped : Ring
wrapped = record { buffer = 9 ∷ 6 ∷ 7 ∷ 8 ∷ []; size = 4; head = 1; tail = 3 }

abbrev full : Ring
full = record { buffer = 9 ∷ 6 ∷ 7 ∷ 8 ∷ []; size = 4; head = 2; tail = 3 }

wrapped-IsValid : IsValid wrapped
wrapped-IsValid = omega arith

full-IsValid : IsValid full
full-IsValid = omega arith

contents-wrapped : contents wrapped ≡ 8 ∷ 9 ∷ []
contents-wrapped = refl

data_in_drops_the_rest : contents (data_in wrapped (1 ∷ 2 ∷ 3 ∷ [])) ≡ 8 ∷ 9 ∷ 1 ∷ []
unfolding data_in
data_in_drops_the_rest = refl

drain-wrapped : (drain wrapped).0 ≡ 8 ∷ 9 ∷ []
unfolding drain second_chunk
drain-wrapped = refl

transmit_empty : is_transmit_buffer_empty (drain wrapped).1 ≡ true
unfolding is_transmit_buffer_empty drain
transmit_empty = refl

data_in_lem_example :
    IsValid (data_in wrapped (1 ∷ 2 ∷ []))
    × (contents (data_in wrapped (1 ∷ 2 ∷ [])) ≡ 8 ∷ 9 ∷ 1 ∷ [])
    × ((data_in wrapped (1 ∷ 2 ∷ [])).size ≡ 4)
data_in_lem_example = data_in_lem (1 ∷ 2 ∷ []) wrapped-IsValid
