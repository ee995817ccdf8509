-- ===== src/Web/Request/Reading.antt =====
-- The reading of a request ends, however the network splits it.
use betaflight_sitl_udp.Base.{
  ℕ, ◌+◌, ◌-◌, ◌≤◌, ◌<◌, ◌≡◌, true, ◌⊎◌, List, ◌++◌, Option, none, some, length,
}
use betaflight_sitl_udp.Web.Request.{request_max, is_complete}

-- What a reading of `got` and then `input` gives.
abbrev pub IsRead : List ℕ → List ℕ → Option (List ℕ) → Type 0
IsRead got input none = length got + length input < request_max - 1
IsRead got input (some request) =
    (length request ≤ request_max - 1)
    × ((is_complete request ≡ true) ⊎ (length request ≡ request_max - 1))
    × ((tail : List ℕ) × (got ++ input ≡ request ++ tail))
