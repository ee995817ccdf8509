-- ===== src/Blackbox/Sorting.antt =====
-- The collected logs stand in the order of their numbers, in whatever order `readdir` gives them.
use mathlib.Core.List.{Permᴰ}
use betaflight_sitl_udp.Base.{
  reverse_onto, ℕ, zero, suc, ◌%◌, ◌/◌, ◌≤◌, ◌<◌, ◌≡◌, refl, ◌∙◌, ap, ap₂, false, List, [], ◌∷◌,
  if◌then◌else◌, arith, map, length, ◌++◌, append-nil,
}
use betaflight_sitl_udp.Blackbox.{
  Log, is_log_name, to_log, scan, int_gt, shift, sort, collect, max_tracked, log_name, five_digits,
  digit,
}
use betaflight_sitl_udp.Blackbox.Names.{log_at, to_log-log_name}

-- The names of logs among the names.
abbrev pub logs_of : List (List ℕ) → List (List ℕ)
logs_of [] = []
logs_of (name ∷ names) = let rest = logs_of names in if is_log_name name then name ∷ rest else rest

-- `readdir` gives the logs of these numbers, in some order, and no other logs.
abbrev pub Lists : List (List ℕ) → List ℕ → Type 0
Lists names numbers = (order : List ℕ) × Permᴰ order numbers × (logs_of names ≡ map log_name order)

scan_lem :
    (room : ℕ) (names : List (List ℕ))
    → length (logs_of names) ≤ room
    → scan room names ≡ map to_log (logs_of names)
unfolding scan
scan_lem zero [] h = refl
scan_lem zero (name ∷ names) h = ground (arith, scan_lem zero names)
scan_lem (suc room) [] h = refl
scan_lem (suc room) (name ∷ names) h =
    ground (arith, scan_lem room names, scan_lem (suc room) names)

log_name_cut : (m n : ℕ) → m % 100000 ≡ n % 100000 → log_name m ≡ log_name n
unfolding log_name five_digits
log_name_cut m n e =
    let d4 : digit (m / 10000) ≡ digit (n / 10000) = omega arith in
    let d3 : digit (m / 1000) ≡ digit (n / 1000) = omega arith in
    let d2 : digit (m / 100) ≡ digit (n / 100) = omega arith in
    let d1 : digit (m / 10) ≡ digit (n / 10) = omega arith in
    let d0 : digit m ≡ digit n = omega arith in cc

same_key :
    (m n : ℕ)
    → int_gt (log_at m).number (log_at n).number ≡ false
    → int_gt (log_at n).number (log_at m).number ≡ false
    → log_at m ≡ log_at n
unfolding int_gt
same_key m n h k =
    let e : m % 100000 ≡ n % 100000 = ground arith in
    ap₂ (λ a b. record { number = a; name = b }) e (log_name_cut m n e)

shift_comm :
    (m n : ℕ) (sorted : List Log)
    → shift (log_at m) (shift (log_at n) sorted) ≡ shift (log_at n) (shift (log_at m) sorted)
unfolding shift int_gt
shift_comm m n [] = ground (arith, same_key m n)
shift_comm m n (x ∷ sorted) = ground (arith, same_key m n, shift_comm m n sorted)

sort_perm :
    (sorted : List Log) {some_order order : List ℕ}
    → Permᴰ some_order order
    → sort sorted (map log_at some_order) ≡ sort sorted (map log_at order)
unfolding sort
sort_perm sorted Permᴰ.nil = refl
sort_perm sorted (Permᴰ.cons {a} {b} {l₁} e rest) =
    ap (λ n. sort (shift (log_at n) sorted) (map log_at l₁)) e
    ∙ sort_perm (shift (log_at b) sorted) rest
sort_perm sorted (Permᴰ.swap {a} {b} {a'} {b'} {l} e d) =
    ap (λ s. sort s (map log_at l))
      (shift_comm b a sorted ∙ ap₂ (λ x y. shift (log_at x) (shift (log_at y) sorted)) e d)
sort_perm sorted (Permᴰ.trans first second) = sort_perm sorted first ∙ sort_perm sorted second

-- The numbers ascend.
abbrev pub Ascends : ℕ → List ℕ → Type 0
Ascends low [] = Unit
Ascends low (n ∷ numbers) = (low ≤ n) × (n < 100000) × Ascends (suc n) numbers

abbrev IsBelow : List Log → ℕ → Type 0
IsBelow [] low = Unit
IsBelow (log ∷ before) low = log.number < low

shift_last :
    (n low : ℕ) (before : List Log)
    → low ≤ n
    → n < 100000
    → IsBelow before low
    → shift (log_at n) before ≡ log_at n ∷ before
unfolding shift int_gt
shift_last n low [] le small below = refl
shift_last n low (log ∷ before) le small below = ground arith

sort_ascending :
    (low : ℕ) (sorted : List Log) (numbers : List ℕ)
    → IsBelow sorted low
    → Ascends low numbers
    → sort sorted (map log_at numbers) ≡ reverse_onto sorted (map log_at numbers)
unfolding sort
sort_ascending low sorted [] below up = refl
sort_ascending low sorted (n ∷ numbers) below (le, small, up) =
    ap (λ s. sort s (map log_at numbers)) (shift_last n low sorted le small below)
    ∙ sort_ascending (suc n) (log_at n ∷ sorted) numbers (omega arith) up

reverse_twice :
    (front back xs : List Log)
    → reverse_onto front (reverse_onto back xs) ≡ reverse_onto (xs ++ front) back
reverse_twice front back [] = refl
reverse_twice front back (x ∷ xs) = reverse_twice front (x ∷ back) xs

length-map_name :
    {some_order order : List ℕ} → Permᴰ some_order order → length some_order ≡ length order
length-map_name Permᴰ.nil = refl
length-map_name (Permᴰ.cons e rest) = ap suc (length-map_name rest)
length-map_name (Permᴰ.swap e d) = refl
length-map_name (Permᴰ.trans first second) = length-map_name first ∙ length-map_name second

map-to_log : (numbers : List ℕ) → map to_log (map log_name numbers) ≡ map log_at numbers
map-to_log [] = refl
map-to_log (n ∷ numbers) = ap₂ ◌∷◌ (to_log-log_name n) (map-to_log numbers)

length-names : (numbers : List ℕ) → length (map log_name numbers) ≡ length numbers
length-names [] = refl
length-names (n ∷ numbers) = ap suc (length-names numbers)

-- In whatever order `readdir` gives the logs, they are collected in the order of their numbers.
pub collect_lem :
    (names : List (List ℕ)) (numbers : List ℕ)
    → Lists names numbers
    → Ascends 0 numbers
    → length numbers ≤ max_tracked
    → collect names ≡ map log_at numbers
unfolding collect
collect_lem names numbers (order, perm, listed) up few =
    let fits : length (logs_of names) ≤ max_tracked =
      omega (arith, ap length listed, length-names order, length-map_name perm) in
    let scanned : scan max_tracked names ≡ map log_at order =
      scan_lem max_tracked names fits ∙ ap (map to_log) listed ∙ map-to_log order in
    ap (λ logs. reverse_onto [] (sort [] logs)) scanned
    ∙ ap (reverse_onto []) (sort_perm [] perm ∙ sort_ascending 0 [] numbers tt up)
    ∙ reverse_twice [] [] (map log_at numbers)
    ∙ append-nil (map log_at numbers)

pub Ascends-sooner :
    (low n : ℕ) (numbers : List ℕ) → low ≤ n → Ascends n numbers → Ascends low numbers
Ascends-sooner low n [] le up = tt
Ascends-sooner low n (k ∷ numbers) le (nk, small, up) = (omega arith, small, up)
