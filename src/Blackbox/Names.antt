-- ===== src/Blackbox/Names.antt =====
-- The names of the logs: what is printed is recognised and read back.
use betaflight_sitl_udp.Base.{
  ℕ, ◌+◌, ◌-◌, ◌*◌, ◌/◌, ◌%◌, ◌<◌, ◌≡◌, refl, sym, ◌∙◌, ap, true, ◌&&◌, List, ◌∷◌, leb,
  if◌then◌else◌, u32, arith,
}
use betaflight_sitl_udp.Blackbox.{
  log_name, five_digits, digit, is_log_name, atoi, atoi_digits, Log, to_log, log_suffix,
}

-- The log of a number.
abbrev pub log_at : ℕ → Log
log_at n = record { number = n % 100000; name = log_name n }

pub is_log_name-log_name : (n : ℕ) → is_log_name (log_name n) ≡ true
unfolding is_log_name log_name five_digits
is_log_name-log_name n = refl

atoi_digits-digit :
    (sum n : ℕ) (text : List ℕ)
    → sum < 10000
    → atoi_digits sum (digit n ∷ text) ≡ atoi_digits (sum * 10 + n % 10) text
unfolding atoi_digits
atoi_digits-digit sum n text small =
    let test : (leb 48 (digit n) && leb (digit n) 57) ≡ true = ground arith in
    ap (λ b. if b then atoi_digits (u32 (sum * 10 + (digit n - 48))) text else sum) test
    ∙ ap (λ s. atoi_digits s text) (omega arith)

atoi-digit : (n : ℕ) (text : List ℕ) → atoi (digit n ∷ text) ≡ atoi_digits 0 (digit n ∷ text)
unfolding atoi
atoi-digit n text = ground arith

stops : (sum : ℕ) → atoi_digits sum log_suffix ≡ sum
unfolding atoi_digits
stops sum = refl

digits_value :
    (n : ℕ)
    → ((((n / 10000 % 10) * 10 + n / 1000 % 10) * 10 + n / 100 % 10) * 10 + n / 10 % 10) * 10
        + n % 10
      ≡ n % 100000
digits_value n = omega arith

pub to_log-log_name : (n : ℕ) → to_log (log_name n) ≡ log_at n
unfolding to_log log_name five_digits
to_log-log_name n =
    let d4 = n / 10000 % 10 in
    let d3 = d4 * 10 + n / 1000 % 10 in
    let d2 = d3 * 10 + n / 100 % 10 in
    let d1 = d2 * 10 + n / 10 % 10 in
    let text1 = digit n ∷ log_suffix in
    let text2 = digit (n / 10) ∷ text1 in
    let text3 = digit (n / 100) ∷ text2 in
    let text4 = digit (n / 1000) ∷ text3 in
    let number =
      atoi-digit (n / 10000) text4
      ∙ atoi_digits-digit 0 (n / 10000) text4 (omega arith)
      ∙ ap (λ s. atoi_digits s text4) (omega arith)
      ∙ atoi_digits-digit d4 (n / 1000) text3 (omega arith)
      ∙ atoi_digits-digit d3 (n / 100) text2 (omega arith)
      ∙ atoi_digits-digit d2 (n / 10) text1 (omega arith)
      ∙ atoi_digits-digit d1 n log_suffix (omega arith)
      ∙ stops (d1 * 10 + n % 10)
      ∙ digits_value n in
    ap (λ k. record { number = k; name = log_name n }) number

-- Two numbers of five digits have different names.
pub log_name_injective : (m n : ℕ) → m < 100000 → n < 100000 → log_name m ≡ log_name n → m ≡ n
log_name_injective m n small small' e =
    let number : m % 100000 ≡ n % 100000 =
      ap (λ (l : Log). l.number) (sym (to_log-log_name m) ∙ ap to_log e ∙ to_log-log_name n) in
    omega arith
